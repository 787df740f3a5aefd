-- ===== src/Calendar/Steps.antt =====
-- `AddDate` by days, in a location whose offset never changes.
use openmeeting_server.Base.{
  ◌≡◌, refl, ℕ, ◌+◌, ◌-◌, ◌*◌, ◌/◌, ◌%◌, ◌^◌, ◌<◌, true, arith, Bool-cases, inl, inr, ap, ◌∙◌, sym,
  ◌||◌, not,
}
use openmeeting_server.Base.Int.{
  ℤ, pos, pos_part, neg_part, ◌+ℤ◌, ◌-ℤ◌, int64, ltb_ℤ, eqb_ℤ, int64_in_range, +ℤ_parts, -ℤ_parts,
  ℤ-eq_of_parts,
}
use openmeeting_server.Calendar.{
  Time, Location, uint64, from_unix, unix, abs, in_location, add_date, local_after, local_after,
  local_after, unix_to_absolute, unix_to_internal,
}
use openmeeting_server.Calendar.Day.{
  days_before_year, days_before_month, year_of, month_of, day_of_month,
}
use openmeeting_server.Calendar.Day.RoundTrip.{date-round_trip}

-- The offset is `o` at every moment, and less than a day.
pub record Fixed (loc : Location) (o : ℤ) : Type 0 where
  pub always : (s : ℤ) → (loc s).offset ≡ o
  pub east : pos_part o < 86400
  pub west : neg_part o < 86400

minus_zero : (a o : ℤ) → eqb_ℤ o (pos 0) ≡ true → a -ℤ o ≡ a
minus_zero a o z = ℤ-eq_of_parts (a -ℤ o) a (ground (arith, -ℤ_parts a o))

in_location-Fixed :
    {loc : Location} {o : ℤ}
    → Fixed loc o
    → (local : ℤ) (nsec : ℕ) → in_location loc local nsec ≡ from_unix (local -ℤ o) nsec
unfolding in_location
in_location-Fixed {loc} {o} fixed local nsec =
    let utc = local -ℤ o in
    rw (fixed.always local) elim (Bool-cases (eqb_ℤ o (pos 0))) [
      | inl z ↦ rw z (ap (λ l. from_unix l nsec) (sym (minus_zero local o z)))
      | inr nz ↦
          elim (Bool-cases (ltb_ℤ utc (loc local).start || not (ltb_ℤ utc (loc local).finish))) [
            | inl out ↦ rw (nz, out, fixed.always utc) refl
            | inr inside ↦ rw (nz, inside) refl
          ]
    ]

uint64_small : (n : ℕ) → n < 2 ^ 64 → uint64 (pos n) ≡ n
unfolding uint64
uint64_small n h = omega arith

-- The day that `AddDate` finds for the same month and `k` days more.
same_month :
    (d : ℕ)
    → let total = pos_part (pos (12 * year_of d + month_of d) +ℤ pos 0) in
      days_before_year (total / 12)
        + days_before_month (total / 12) (total % 12)
        + (day_of_month d - 1)
      ≡ d
unfolding ◌+ℤ◌
same_month d =
    let (e, b, t) = date-round_trip d in
    let x = 12 * year_of d + month_of d in
    let total : pos_part (pos x +ℤ pos 0) ≡ x = ground arith in
    let year : x / 12 ≡ year_of d = omega (arith, t) in
    let month : x % 12 ≡ month_of d = omega (arith, t) in
    rw (total, year, month) omega (arith, e, b)

uint64_value : (a : ℤ) (v : ℕ) → pos_part a ≡ v + neg_part a → v < 2 ^ 64 → uint64 a ≡ v
unfolding uint64
uint64_value a v h b = omega (arith, h)

local_after-days :
    (s k : ℕ) → s < 2 ^ 63 + 2 ^ 62 → k < 2 ^ 40 → local_after s (pos 0) (pos k) ≡ s + 86400 * k
unfolding local_after
local_after-days s k hs hk =
    let d = s / 86400 in
    let small : uint64 (pos d +ℤ pos k) ≡ d + k =
      uint64_value (pos d +ℤ pos k) (d + k) (omega (arith, +ℤ_parts (pos d) (pos k)))
        (omega arith) in
    let all =
      uint64_value (pos ((d + k) * 86400 + s % 86400)) (s + 86400 * k) (omega arith)
        (omega arith) in
    rw (same_month d, small) all

module _ {loc : Location} {o : ℤ} (fixed : Fixed loc o) (n nsec : ℕ) (h : n < 2 ^ 60) where
  abbrev moment : Time
  moment = record { sec = pos n; nsec = nsec }

  unix-moment : unix moment ≡ pos n -ℤ unix_to_internal
  unfolding unix
  unix-moment =
      int64_in_range (pos n -ℤ unix_to_internal) (omega (arith, -ℤ_parts (pos n) unix_to_internal))
        (omega (arith, -ℤ_parts (pos n) unix_to_internal))

  -- Seconds since the year zero on the clocks of the location.
  abbrev since_zero : ℕ
  since_zero = n + pos_part o + 9223372028715321600 - (neg_part o + 62135596800)

  abs-moment : abs loc moment ≡ since_zero
  unfolding abs
  abs-moment =
      let u = pos n -ℤ unix_to_internal in
      let value =
        uint64_value (u +ℤ o +ℤ unix_to_absolute) since_zero
          (omega (
            arith,
            -ℤ_parts (pos n) unix_to_internal,
            +ℤ_parts u o,
            +ℤ_parts (u +ℤ o) unix_to_absolute,
            fixed.east,
            fixed.west,
          ))
          (omega (arith, fixed.east)) in
      rw (unix-moment, fixed.always u) value

  -- From later local seconds back to an instant.
  later_instant :
      (k : ℕ)
      → k < 2 ^ 40
      → in_location loc (int64 (pos (since_zero + 86400 * k) -ℤ unix_to_absolute)) nsec
        ≡ record { sec = pos (n + 86400 * k); nsec = nsec }
  unfolding from_unix
  later_instant k b =
      let local = pos (since_zero + 86400 * k) -ℤ unix_to_absolute in
      let parts = -ℤ_parts (pos (since_zero + 86400 * k)) unix_to_absolute in
      let wrapped : int64 local ≡ local =
        int64_in_range local (omega (arith, parts, fixed.east, fixed.west))
          (omega (arith, parts, fixed.east, fixed.west)) in
      let back = (local -ℤ o) +ℤ unix_to_internal in
      let same : back ≡ pos (n + 86400 * k) = ℤ-eq_of_parts back (pos (n + 86400 * k)) (
        omega (
          arith,
          parts,
          -ℤ_parts local o,
          +ℤ_parts (local -ℤ o) unix_to_internal,
          fixed.east,
          fixed.west,
        )) in
      let in_range : int64 (pos (n + 86400 * k)) ≡ pos (n + 86400 * k) =
        int64_in_range (pos (n + 86400 * k)) (omega arith) (omega arith) in
      rw wrapped (
        in_location-Fixed fixed local nsec
        ∙ ap (λ s. record { sec = s; nsec = nsec }) (ap int64 same ∙ in_range))

  -- In a location with one offset, `AddDate(0, 0, k)` is the moment `k` times 86400 seconds later, for
  -- moments up to 2^60 seconds after the year 1 and for fewer than 2^40 days.
  pub add_date-days :
      (k : ℕ)
      → k < 2 ^ 40
      → add_date loc moment (pos 0) (pos k) ≡ record { sec = pos (n + 86400 * k); nsec = nsec }
  unfolding add_date
  add_date-days k b =
      let after = local_after-days since_zero k (omega (arith, fixed.east)) b in
      rw (abs-moment, after) (later_instant k b)
