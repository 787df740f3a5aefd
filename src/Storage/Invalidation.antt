-- ===== src/Storage/Invalidation.antt =====
-- The deletion of cached meetings after a write to the database.
use openmeeting_server.Base.{
  ℕ, zero, suc, ◌≤◌, ◌≡◌, refl, ◌⊎◌, inl, inr, String, List, [], ◌∷◌, arith, ◌∙◌, ap, ◌<◌,
}
use openmeeting_server.Result.{Result, Err, ok, err, Result-cases}
use openmeeting_server.Env
use openmeeting_server.Env.{Env, Change, Call, Process, Exec, ◌>>◌}
use openmeeting_server.Storage.{update, update_mgo, new_meeting, del_meeting}
use openmeeting_server.Storage.Meta.{max_retry_times}
use openmeeting_server.Storage.Cache.{del_key, exec_del}
use openmeeting_server.Storage.Key.{get_meeting_info_key}

-- `n` attempts to delete the key, before the calls that were there.
abbrev tries : ℕ → String → List Call → List Call
tries zero key calls = calls
tries (suc n) key calls = Env.tag_as_deleted key ∷ tries n key calls

tries-suc :
    (n : ℕ) (key : String) (calls : List Call)
    → tries n key (Env.tag_as_deleted key ∷ calls) ≡ Env.tag_as_deleted key ∷ tries n key calls
tries-suc zero key calls = refl
tries-suc (suc n) key calls = ap (λ cs. Env.tag_as_deleted key ∷ cs) (tries-suc n key calls)

-- The first `n` attempts to delete the key were each answered with an error.
abbrev pub AllFailed : Env → String → ℕ → List Call → Type 0
AllFailed env key n before =
    (j : ℕ) → j < n → (e : Err) × (env.tag_as_deleted_answer (tries j key before) key ≡ err e)

-- What happens to one key: it is tried until the first success, or `limit` times with an error each time.
pub record Tried (env : Env) (key : String) (limit : ℕ) (before : List Call) (after : Process)
    : Type 0 where
  pub times : ℕ
  pub calls : after.calls ≡ tries times key before
  pub bounded : times ≤ limit
  pub outcome :
      ((k : ℕ) × (times ≡ suc k)
        × AllFailed env key k before
        × (env.tag_as_deleted_answer (tries k key before) key ≡ ok tt))
      ⊎ ((times ≡ limit) × AllFailed env key limit before)

one_more :
    (env : Env) (key : String) (n : ℕ) (calls : List Call) (e : Err)
    → env.tag_as_deleted_answer calls key ≡ err e
    → AllFailed env key n (Env.tag_as_deleted key ∷ calls)
    → AllFailed env key (suc n) calls
one_more env key n calls e first rest zero h = (e, first)
one_more env key n calls e first rest (suc j) h =
    let (e', failed) = rest j (omega arith) in (e', rw (tries-suc j key calls) at failed)

-- One more failed attempt before.
later :
    {env : Env} {key : String} {n : ℕ} {calls : List Call} {r : Result (Unit {0}) × Process}
    (e : Err)
    → env.tag_as_deleted_answer calls key ≡ err e
    → Tried env key n (Env.tag_as_deleted key ∷ calls) r.1 × (r.0 ≡ ok tt)
    → Tried env key (suc n) calls r.1 × (r.0 ≡ ok tt)
later {env} {key} {n} {calls} {r} e first (tried, done) = (
  record {
    times = suc tried.times;
    calls = tried.calls ∙ tries-suc tried.times key calls;
    bounded = omega (arith, tried.bounded);
    outcome = elim tried.outcome [
      | inl (k, times, failed, success) ↦ inl (
        suc k,
        ap suc times,
        one_more env key k calls e first failed,
        rw (tries-suc k key calls) at success,
      )
      | inr (times, failed) ↦ inr (ap suc times, one_more env key n calls e first failed)
    ];
  },
  done,
)

-- Each way through the loop of `ExecDel` for one key.
pub del_key-Tried :
    (env : Env) (n : ℕ) (key : String) (p : Process)
    → Tried env key n p.calls (del_key env n key p).1 × ((del_key env n key p).0 ≡ ok tt)
unfolding del_key
del_key-Tried env zero key p = (
  record {
    times = 0;
    calls = refl;
    bounded = omega arith;
    outcome = inr (refl, λ j h. absurd (omega (arith, h)));
  },
  refl,
)
del_key-Tried env (suc n) key p = elim (Result-cases (env.tag_as_deleted_answer p.calls key)) [
  | inl h ↦ rw h.1 (
    record {
      times = 1;
      calls = refl;
      bounded = omega arith;
      outcome = inl (0, refl, (λ j h. absurd (omega (arith, h))), h.1);
    },
    refl,
  )
  | inr h ↦ rw h.1 (later h.0 h.1 (del_key-Tried env n key _))
]

-- What the program relies on of a transaction: the function runs once, and success is its success.
pub record RunsOnce (env : Env) : Type 0 where
  pub result : Exec (Unit {0}) → Process → Result (Unit {0})
  pub runs : (m : Exec (Unit {0})) (p : Process) → env.transaction m p ≡ (result m p, (m p).1)
  pub honest : (m : Exec (Unit {0})) (p : Process) → result m p ≡ ok tt → (m p).0 ≡ ok tt

update_body : Env → String → Change → List Change → Exec (Unit {0})
update_body env meeting_id c cs = do
  update_mgo env meeting_id (c ∷ cs)
  exec_del env (del_meeting new_meeting (meeting_id ∷ []))

update_body-Tried :
    (env : Env) (meeting_id : String) (c : Change) (cs : List Change) (p : Process)
    → (update_body env meeting_id c cs p).0 ≡ ok tt
    → (env.update_meeting_answer p.calls meeting_id (c ∷ cs) ≡ ok tt)
      × Tried env
          (get_meeting_info_key meeting_id)
          max_retry_times
          (Env.update_meeting meeting_id (c ∷ cs) ∷ p.calls)
          (update_body env meeting_id c cs p).1
unfolding update_body update_mgo new_meeting del_meeting exec_del
update_body-Tried env meeting_id c cs p done =
    elim (Result-cases (env.update_meeting_answer p.calls meeting_id (c ∷ cs))) [
      | inr h ↦ absurd (cc (rw (h.1, Env.continue) at done))
      | inl h ↦
          let deleted =
            del_key-Tried env max_retry_times (get_meeting_info_key meeting_id)
              (record p { calls = Env.update_meeting meeting_id (c ∷ cs) ∷ p.calls }) in
          (h.1, rw (h.1, Env.continue) (rw (deleted.1, Env.continue) deleted.0))
    ]

-- After a successful Update that writes something, with a transaction that runs its function once,
-- the database has accepted the write, and then the deletion of the cached meeting was tried,
-- either until the first success after errors only, or five times with an error each; the Update is
-- a success in both cases.
pub update-invalidates :
    (env : Env) (meeting_id : String) (c : Change) (cs : List Change) (p : Process)
    → RunsOnce env
    → (update env meeting_id (c ∷ cs) p).0 ≡ ok tt
    → (env.update_meeting_answer p.calls meeting_id (c ∷ cs) ≡ ok tt)
      × Tried env
          (get_meeting_info_key meeting_id)
          max_retry_times
          (Env.update_meeting meeting_id (c ∷ cs) ∷ p.calls)
          (update env meeting_id (c ∷ cs) p).1
unfolding update update_body
update-invalidates env meeting_id c cs p once done =
    let body = update_body env meeting_id c cs in
    rw (once.runs body p)
      (update_body-Tried env meeting_id c cs p (once.honest body p (rw (once.runs body p) at done)))
