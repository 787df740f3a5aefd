-- ===== src/Meeting/Schedule/Next/Days.antt =====
-- The next time of a meeting that repeats every day or every week, in a time zone with one offset.
use openmeeting_server.Base.{
  ◌≡◌, refl, ℕ, zero, suc, ◌+◌, ◌*◌, ◌^◌, ◌<◌, ◌≤◌, inl, inr, Bool, true, false, arith, Bool-cases,
  Option, some, none, ap, ◌∙◌, ◌==◌, if◌then◌else◌, ◌&&◌,
}
use openmeeting_server.Base.Int.{ltb_ℤ, ℤ, ◌+ℤ◌, ◌-ℤ◌, pos_part, ℤ, pos, int64}
use openmeeting_server.Calendar.{Time, Location, before, after, add_date, from_unix, unix}
use openmeeting_server.Calendar.Steps.{Fixed, add_date-days}
use openmeeting_server.Constants.{repeat_daily, repeat_weekly, none_repeat}
use openmeeting_server.Model.{MeetingInfo}
use openmeeting_server.Meeting.Schedule.Next.{
  advance, next_time, next_in_location, within_end_date, enough_fuel,
}

-- `n` after `k` steps of `w` seconds.
abbrev pub later : ℕ → ℕ → ℕ → ℕ
later w zero n = n
later w (suc k) n = later w k (n + w)

abbrev pub second : ℕ → ℕ → Time
second nsec n = record { sec = pos n; nsec = nsec }

not_before : (N m nsec n : ℕ) → before (second m N) (second nsec n) ≡ false → n ≤ N
unfolding before
not_before N m nsec n h = ground arith

-- The first step that is after now.
pub record First (N m nsec w n : ℕ) (found : Option Time) : Type 0 where
  pub rounds : ℕ
  pub result : found ≡ some (second nsec (later w rounds n))
  pub past_now : before (second m N) (second nsec (later w rounds n)) ≡ true
  pub earlier : (j : ℕ) → j < rounds → before (second m N) (second nsec (later w j n)) ≡ false

earlier_than :
    (N m nsec w n k : ℕ)
    → before (second m N) (second nsec n) ≡ false
    → ((j : ℕ) → j < k → before (second m N) (second nsec (later w j (n + w))) ≡ false)
    → (j : ℕ) → j < suc k
    → before (second m N) (second nsec (later w j n)) ≡ false
earlier_than N m nsec w n k h rest zero b = h
earlier_than N m nsec w n k h rest (suc j) b = rest j (omega arith)

one_more :
    {N m nsec w n : ℕ} {found : Option Time}
    → before (second m N) (second nsec n) ≡ false
    → First N m nsec w (n + w) found
    → First N m nsec w n found
one_more {N} {m} {nsec} {w} {n} h first = record {
  rounds = suc first.rounds;
  result = first.result;
  past_now = first.past_now;
  earlier = earlier_than N m nsec w n first.rounds h first.earlier;
}

advance-First :
    {loc : Location} {o : ℤ} (fixed : Fixed loc o) (N m nsec days : ℕ)
    → N < 2 ^ 60
    → 0 < days
    → days < 2 ^ 40
    → (fuel n : ℕ) → 0 < fuel
    → N + 2 ≤ n + fuel
    → First N m nsec (86400 * days) n (
        advance fuel (before (second m N)) (λ t. add_date loc t (pos 0) (pos days)) (second nsec n))
unfolding advance
advance-First fixed N m nsec days hN h0 hd zero n hf h = absurd (omega arith)
advance-First fixed N m nsec days hN h0 hd (suc fuel) n hf h =
    elim (Bool-cases (before (second m N) (second nsec n))) [
      | inl past ↦ rw past (record {
        rounds = 0;
        result = refl;
        past_now = past;
        earlier = λ j b. absurd (omega arith);
      })
      | inr early ↦
          let low = not_before N m nsec n early in
          rw (early, add_date-days fixed n nsec (omega (arith, low)) days hd)
            (one_more early (
              advance-First fixed N m nsec days hN h0 hd fuel (n + 86400 * days)
                (omega (arith, low)) (omega (arith, low))))
    ]

-- The two kinds of repetition, and their days.
pub data Cycle (info : MeetingInfo) : ℕ → Type 0 where
  daily : info.repeat_type ≡ repeat_daily → Cycle info 1
  weekly : info.repeat_type ≡ repeat_weekly → Cycle info 7

next_time-Cycle :
    (loc : Location) (fuel : ℕ) (info : MeetingInfo) (days : ℕ) (now t : Time)
    → Cycle info days
    → (next_time loc fuel info now t
        ≡ advance fuel (before now) (λ u. add_date loc u (pos 0) (pos days)) t)
      × ((info.repeat_type == none_repeat) ≡ false)
unfolding next_time
next_time-Cycle loc fuel info _ now t (daily e) = (rw e refl, rw e refl)
next_time-Cycle loc fuel info _ now t (weekly e) = (rw e refl, rw e refl)

Cycle-bounds : (info : MeetingInfo) (days : ℕ) → Cycle info days → (0 < days) × (days < 2 ^ 40)
Cycle-bounds info _ (daily e) = (omega arith, omega arith)
Cycle-bounds info _ (weekly e) = (omega arith, omega arith)

from_unix-second : (s : ℕ) → s < 2 ^ 60 → from_unix (pos s) 0 ≡ second 0 (s + 62135596800)
unfolding from_unix int64 ◌+ℤ◌
from_unix-second s h = ap (λ x. record { sec = x; nsec = 0 }) (ground arith)

-- The seconds from the year 1 to 1970.
abbrev pub epoch : ℕ
epoch = 62135596800

abbrev fuel_for : ℕ → ℕ → ℕ
fuel_for N start = pos_part (pos N -ℤ pos start) + 5

fuel-enough : (N start : ℕ) → (0 < fuel_for N start) × (N + 2 ≤ start + fuel_for N start)
unfolding ◌-ℤ◌
fuel-enough N start = (ground arith, ground arith)

-- The clock is past the scheduled time.
is_past : (N m start : ℕ) → start < N → after (second m N) (second 0 start) ≡ true
unfolding after before
is_past N m start h = ground arith

if_false : {A : Type 0} (b : Bool) (x y : A) → b ≡ false → (if b then x else y) ≡ y
if_false true x y h = absurd (cc h)
if_false false x y h = refl

if_true : {A : Type 0} (b : Bool) (x y : A) → b ≡ true → (if b then x else y) ≡ x
if_true true x y h = refl
if_true false x y h = absurd (cc h)

and_false : (a b : Bool) → a ≡ false → (a && b) ≡ false
and_false true b h = absurd (cc h)
and_false false b h = refl

-- With no end date every time counts.
no_end-within_end_date :
    (info : MeetingInfo) (t : Time) → info.end_date ≡ pos 0 → within_end_date info t ≡ unix t
unfolding within_end_date
no_end-within_end_date info t e = if_false _ _ _ (and_false _ _ (ap (ltb_ℤ (pos 0)) e))

-- The way through the function to its loop.
chosen :
    (fuel : ℕ) (loc : Location) (info : MeetingInfo) (now start t : Time)
    → from_unix info.scheduled_time 0 ≡ start
    → (info.repeat_type == none_repeat) ≡ false
    → info.end_date ≡ pos 0
    → after now start ≡ true
    → next_time loc fuel info now start ≡ some t
    → next_in_location fuel loc info now ≡ some (unix t)
unfolding next_in_location
chosen fuel loc info now start t e repeats no_end past found =
    if_false _ _ _ repeats
    ∙ if_false _ _ _ (and_false _ _ (ap (ltb_ℤ (pos 0)) no_end))
    ∙ if_true _ _ _ (ap (after now) e ∙ past)
    ∙ ap (λ r. elim r as (λ x. Option ℤ) [ none ↦ none | some u ↦ some (within_end_date info u) ])
        (ap (next_time loc fuel info now) e ∙ found)
    ∙ ap some (no_end-within_end_date info t no_end)

enough_fuel-start :
    (info : MeetingInfo) (N m start : ℕ)
    → from_unix info.scheduled_time 0 ≡ second 0 start
    → enough_fuel info (second m N) ≡ fuel_for N start
unfolding enough_fuel
enough_fuel-start info N m start e = ap (λ t. pos_part (pos N -ℤ t.sec) + 5) e

-- A meeting that repeats every day or every week and has no end date, in a time zone with one offset,
-- whose scheduled time, between 1970 and 2^59 seconds after, is before now, has a next time, which is
-- found within the fuel: the first of the times that whole days or whole weeks of 86400 seconds a day
-- lead to from the scheduled time, and that is after now.
pub next_in_location-days :
    {loc : Location} {o : ℤ} (fixed : Fixed loc o) (info : MeetingInfo) (days s N m : ℕ)
    → Cycle info days
    → info.scheduled_time ≡ pos s
    → info.end_date ≡ pos 0
    → s < 2 ^ 59
    → N < 2 ^ 60
    → s + epoch < N
    → let now = second m N in
      let time : ℕ → Time = λ k. second 0 (later (86400 * days) k (s + epoch)) in
      (k : ℕ) × (next_in_location (enough_fuel info now) loc info now ≡ some (unix (time k)))
      × (before now (time k) ≡ true)
      × ((j : ℕ) → j < k → before now (time j) ≡ false)
next_in_location-days {loc} fixed info days s N m cycle scheduled no_end hs hN late =
    let start = s + epoch in
    let now = second m N in
    let (positive, few) = Cycle-bounds info days cycle in
    let (some_fuel, enough) = fuel-enough N start in
    let first =
      advance-First fixed N m 0 days hN positive few (fuel_for N start) start some_fuel enough in
    let (loop, repeats) =
      next_time-Cycle loc (fuel_for N start) info days now (second 0 start) cycle in
    let e = ap (λ x. from_unix x 0) scheduled ∙ from_unix-second s (omega arith) in
    let t = second 0 (later (86400 * days) first.rounds start) in
    (
      first.rounds,
      ap (λ f. next_in_location f loc info now) (enough_fuel-start info N m start e)
          ∙ chosen (fuel_for N start) loc info now (second 0 start) t e repeats no_end
              (is_past N m start late) (loop ∙ first.result),
      first.past_now,
      first.earlier,
    )
