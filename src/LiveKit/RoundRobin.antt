-- ===== src/LiveKit/RoundRobin.antt =====
-- How `getLiveURL` of pkg/rtc/livekit/livekit.go spreads the clients over the servers.
use openmeeting_server.Base.{
  Bool-cases, ℕ, zero, suc, ◌+◌, ◌-◌, ◌%◌, ◌^◌, ◌<◌, ◌≡◌, ◌⊎◌, inl, inr, refl, String, List, [],
  ◌∷◌, arith, eqb,
}
use openmeeting_server.Base.Lists.{length}
use openmeeting_server.Result.{ok, err, panic, element_at}
use openmeeting_server.Env.{Env, Process}
use openmeeting_server.LiveKit.{get_live_url}

get_elem-total :
    {A : Type 0} (xs : List A) (i : ℕ) → i < length xs → (x : A) × (element_at xs i ≡ ok x)
unfolding element_at
get_elem-total [] i h = absurd (omega arith)
get_elem-total (x ∷ xs) zero h = (x, refl)
get_elem-total (x ∷ xs) (suc i) h = get_elem-total xs i (omega arith)

wraps_back : (i : ℕ) → i < 2 ^ 64 → ((i + 1) % 2 ^ 64 + 2 ^ 64 - 1) % 2 ^ 64 ≡ i
wraps_back i h = omega arith

-- With no server configured the call panics. With one server it gives that server's address and
-- leaves the counter alone. With more it gives the address that the counter selects, modulo their
-- number, and advances the counter modulo 2^64, so that successive calls take the servers in turn.
pub get_live_url_turns :
    (env : Env) (p : Process)
    → p.index < 2 ^ 64
    → ((length env.urls ≡ 0) × ((get_live_url env p).0 ≡ err panic))
      ⊎ ((length env.urls ≡ 1)
          × (url : String) × (element_at env.urls 0 ≡ ok url)
          × (get_live_url env p ≡ (ok url, p)))
      ⊎ ((1 < length env.urls)
          × (url : String) × (element_at env.urls (p.index % length env.urls) ≡ ok url)
          × (get_live_url env p ≡ (ok url, record p { index = (p.index + 1) % 2 ^ 64 })))
unfolding get_live_url
get_live_url_turns env p h = elim (Bool-cases (eqb (length env.urls) 1)) [
  | inl one ↦
      let (url, e) = get_elem-total env.urls 0 (ground arith) in
      inr (inl (ground arith, url, e, rw one (rw e)))
  | inr more ↦ elim (Bool-cases (eqb (length env.urls) 0)) [
    | inl none' ↦ inl (ground arith, rw (more, none'))
    | inr some' ↦
        let (url, e) = get_elem-total env.urls (p.index % length env.urls) (ground arith) in
        inr (inr (ground arith, url, e, rw (more, some', wraps_back p.index h) (rw e)))
  ]
]
