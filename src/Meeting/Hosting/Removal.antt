-- ===== src/Meeting/Hosting/Removal.antt =====
-- What `RemoveParticipants` answers and does, one id after another.
use openmeeting_server.Base.{sym, ℕ, ◌+◌, String, ◌≡◌, refl, ◌∙◌, List, [], ◌∷◌, arith}
use openmeeting_server.Base.Lists.{count, count-append}
use openmeeting_server.Result.{Result, ok}
use openmeeting_server.Env
use openmeeting_server.Env.{Env, Call, Process}
use openmeeting_server.LiveKit.{remove_participant}
use openmeeting_server.Meeting.Hosting.{Removed, add_outcome, remove_each}

-- One call for each id, the latest first, before the calls that were there.
abbrev pub removals : String → List String → List Call → List Call
removals meeting_id [] calls = calls
removals meeting_id (one ∷ ids) calls =
    removals meeting_id ids (Env.remove_participant meeting_id one ∷ calls)

module _ (env : Env) (meeting_id : String) where
  remove-calls :
      (one : String) (p : Process)
      → (remove_participant env meeting_id one p).1.calls
        ≡ Env.remove_participant meeting_id one ∷ p.calls
  unfolding remove_participant
  remove-calls one p = refl

  count-add_outcome :
      (r : Result (Unit {0})) (one x : String) (rest : Removed) (n : ℕ)
      → count x rest.success_user_id_list + count x rest.failed_user_id_list ≡ n
      → count x (add_outcome r one rest).success_user_id_list
          + count x (add_outcome r one rest).failed_user_id_list
        ≡ count x (one ∷ []) + n
  unfolding add_outcome count
  count-add_outcome r one x rest n h = ground arith

  -- Whatever the room service answers, the removal of a list of ids succeeds, asks once for each id in
  -- the order of the request, and puts every id into one of its two lists, as often as it was asked.
  pub remove_each-partition :
      (ids : List String) (p : Process)
      → (removed : Removed) × ((remove_each env meeting_id ids p).0 ≡ ok removed)
        × ((remove_each env meeting_id ids p).1.calls ≡ removals meeting_id ids p.calls)
        × ((x : String)
            → count x removed.success_user_id_list + count x removed.failed_user_id_list
              ≡ count x ids)
  unfolding remove_each
  remove_each-partition [] p = (_, refl, refl, λ x. unfold count in refl)
  remove_each-partition (one ∷ ids) p =
      let r = (remove_participant env meeting_id one p).0 in
      let ih = remove_each-partition ids (remove_participant env meeting_id one p).1 in
      (
        add_outcome r one ih.0,
        rw (ih.1, Env.continue),
        rw (ih.1, Env.continue) ih.2,
        λ x.
            count-add_outcome r one x ih.0 (count x ids) (ih.3 x)
            ∙ sym (count-append x (one ∷ []) ids),
      )
