-- ===== src/Meeting/Notification/Broadcast.antt =====
-- Whom a broadcast of `broadcastStreamOperateData` names.
use openmeeting_server.Base.{
  ◌≡◌, refl, String, List, [], ◌∷◌, false, eq_iff, arith, Bool-cases, inl, inr,
}
use openmeeting_server.Base.Lists.{contains}
use openmeeting_server.Meeting.Notification.{key_set, delete_key, delete_absent, broadcast_users}

delete_key-of_absent :
    (v : String) (ks : List String) → contains v ks ≡ false → delete_key v ks ≡ ks
unfolding delete_key contains
delete_key-of_absent v [] h = refl
delete_key-of_absent v (k ∷ ks) h = ground (arith, delete_key-of_absent v ks)

delete_absent_lem : (vs ks : List String) → delete_absent vs ks ≡ ks
unfolding delete_absent
delete_absent_lem [] ks = refl
delete_absent_lem (v ∷ vs) ks = elim (Bool-cases (contains v ks)) [
  | inl e ↦ rw e (delete_absent_lem vs ks)
  | inr e ↦ rw (e, delete_key-of_absent v ks e) (delete_absent_lem vs ks)
]

contains-key_set : (x : String) (vs : List String) → contains x (key_set vs) ≡ contains x vs
unfolding key_set contains
contains-key_set x [] = refl
contains-key_set x (v ∷ vs) =
    ground (arith, contains-key_set x vs, contains-key_set v vs, eq_iff v x)

-- The broadcast names every participant of the room, and nobody else, whoever is in the two lists of
-- users whose stream was not there or could not be operated: nobody is taken out.
pub broadcast_users_all :
    (user_ids stream_not_exist failed : List String) (x : String)
    → contains x (broadcast_users user_ids stream_not_exist failed) ≡ contains x user_ids
unfolding broadcast_users
broadcast_users_all user_ids stream_not_exist failed x =
    rw (delete_absent_lem, delete_absent_lem) (contains-key_set x user_ids)
