-- ===== src/Storage/Cache.antt =====
-- pkg/common/storage/cache/redis/meta_cache.go: a read through the cache, and the deletion of keys.
use openmeeting_server.Base.{ℕ, zero, suc, String, List, [], ◌∷◌, ◌==◌, if◌then◌else◌}
use openmeeting_server.Result.{Result, ok, err, record_not_found}
use openmeeting_server.Env
use openmeeting_server.Storage.Meta.{MetaCache}
use openmeeting_server.Env.{
  ◌>>=◌, ◌>>◌, Env, Fetched, served, missing, unreachable, Exec, pure, raise, lift, ask, ◌>>◌,
}

module _ (env : Env) where
  -- What `Fetch2` is given: it runs `fn`, and stores its value.
  fill : {T : Type 0} → (T → Result String) → String → Exec T → Exec T
  fill marshal key fn = do
    t ← fn
    bs ← lift (marshal t)
    ask (Env.store key bs) (λ h. env.store_answer h key bs)
    pure t

  on_fetched :
      {T : Type 0} → (T → Result String) → (String → Result T) → String → Exec T → Fetched → Exec T
  unfolding fill
  on_fetched marshal unmarshal key fn (served v) =
      if v == "" then raise record_not_found else lift (unmarshal v)
  on_fetched marshal unmarshal key fn missing = fill marshal key fn
  on_fetched marshal unmarshal key fn (unreachable e) = raise e

  unfoldable pub get_cache :
      {T : Type 0} → (T → Result String) → (String → Result T) → String → Exec T → Exec T
  unfolding on_fetched
  get_cache marshal unmarshal key fn = do
    v ← ask (Env.fetch key) (λ h. ok (env.fetch_answer h key))
    on_fetched marshal unmarshal key fn v

  -- One key: tries again after an error, and gives up in silence.
  unfoldable pub del_key : ℕ → String → Exec (Unit {0})
  del_key zero key p = (ok tt, p)
  del_key (suc tries) key p =
      let (r, p') = ask (Env.tag_as_deleted key) (λ h. env.tag_as_deleted_answer h key) p in
      elim r [ ok u ↦ (ok tt, p') | err e ↦ del_key tries key p' ]

  unfoldable pub del_keys : ℕ → List String → Exec (Unit {0})
  unfolding del_key
  del_keys tries [] = pure tt
  del_keys tries (key ∷ keys) = del_key tries key >> del_keys tries keys

  -- `ExecDel` with no `distinct`, as every caller has it
  unfoldable pub exec_del : MetaCache → Exec (Unit {0})
  unfolding del_keys
  exec_del m = del_keys m.max_retry_times m.keys
