-- ===== src/Recovery/Slot.antt =====
-- internal/recovery/backfill.go: the grid of slots. A time is a number of nanoseconds since the
-- epoch and the zero time is `none`; `offset` is what the zone adds to it, constant here.
-- Durations are not negative, a difference that Go would make negative is guarded by the caller.
use native.Mathlib.Nat.{div-add-mod', mod-lt, mod-le, mul-div-mul_right}
use systemd_transition_expor.Base.{
  ℕ, ◌+◌, ◌-◌, ◌*◌, ◌/◌, ◌%◌, ◌≤◌, ◌<◌, ◌≡◌, not, ◌&&◌, Option, none, some, ◌⊎◌, ltb, leb, arith,
  if◌then◌else◌,
}

abbrev pub ms_ns : ℕ
ms_ns = 1000000

abbrev pub hour_ns : ℕ
hour_ns = 3600 * 1000 * ms_ns

abbrev pub minute_ns : ℕ
minute_ns = 60 * 1000 * ms_ns

-- `SlotEndFraction` and `SlotEndLead`.
abbrev pub slot_end_fraction : ℕ
slot_end_fraction = 5 * ms_ns

abbrev pub slot_end_lead : ℕ
slot_end_lead = 1000 * ms_ns - slot_end_fraction

-- The local hour of `t`, with the zone's offset added, and the minute in it.
abbrev hour_of : ℕ → ℕ → ℕ
hour_of offset t = (t + offset) - (t + offset) % hour_ns

abbrev minute_of : ℕ → ℕ → ℕ
minute_of offset t = (t + offset) % hour_ns / minute_ns

-- `UnixMilli`.
abbrev pub unix_milli : ℕ → ℕ
unix_milli t = t / ms_ns

module _ (offset : ℕ) where
  unfoldable pub slot_start : ℕ → ℕ → ℕ
  slot_start t size = (hour_of offset t + minute_of offset t * minute_ns / size * size) - offset

  abbrev pub slot_opening_time : ℕ → ℕ
  slot_opening_time start = start + slot_end_fraction

  abbrev pub slot_closing_time : ℕ → ℕ → ℕ
  slot_closing_time start size = start + (size - slot_end_lead)

  unfoldable pub due_slot_opening : ℕ → ℕ → Option ℕ
  due_slot_opening now size =
      let start = slot_start now size in
      let opening = slot_opening_time start in
      if leb size slot_end_lead
      then none
      else if not (ltb now opening) && ltb now (start + size)
      then some opening
      else none

  unfoldable pub next_slot_opening : ℕ → ℕ → Option ℕ
  next_slot_opening now size =
      let start = slot_start now size in
      let opening = slot_opening_time start in
      if leb size slot_end_lead
      then none
      else if ltb now opening
      then some opening
      else some (slot_opening_time (start + size))

  unfoldable pub due_slot_closing : ℕ → ℕ → Option ℕ
  due_slot_closing now size =
      let start = slot_start now size in
      let closing = slot_closing_time start size in
      if leb size slot_end_lead
      then none
      else if not (ltb now closing) && ltb now (start + size)
      then some closing
      else none

  unfoldable pub next_slot_closing : ℕ → ℕ → Option ℕ
  next_slot_closing now size =
      let start = slot_start now size in
      let closing = slot_closing_time start size in
      if leb size slot_end_lead
      then none
      else if ltb now closing
      then some closing
      else some (slot_closing_time (start + size) size)

  unfoldable pub recovery_window : ℕ → ℕ → Option (ℕ × ℕ)
  recovery_window ready size =
      let start = slot_start ready size in
      if leb size 0 then none else if not (ltb start ready) then none else some (start, ready)

  -- For a window of a positive number of whole minutes, the slot that `SlotStart` names contains
  -- the time.
  pub slot_start-covers :
      (t minutes : ℕ)
      → 0 < minutes
      → (slot_start t (minutes * minute_ns) ≤ t)
        × (t < slot_start t (minutes * minute_ns) + minutes * minute_ns)
  unfolding slot_start
  slot_start-covers t minutes h =
      let u = t + offset in
      let r = u % hour_ns in
      let m = r / minute_ns in
      let same : m * minute_ns / (minutes * minute_ns) ≡ m / minutes =
        mul-div-mul_right m minutes (omega arith) in
      let in_minute = div-add-mod' r minute_ns in
      let minute_rest : r % minute_ns < minute_ns = mod-lt r (omega arith) in
      let in_slot = div-add-mod' m minutes in
      let slot_rest = mod-lt m h in
      let in_hour = mod-le u hour_ns in
      rw same (omega (arith, in_minute, minute_rest, in_slot, slot_rest, in_hour))

  -- For a window of whole minutes: either the opening instant of the slot is still to come, none
  -- is due and it is the next one; or it has come, it is due, and the next one, after `now`, is
  -- that of the following slot.
  slot_openings :
      (now minutes : ℕ)
      → 0 < minutes
      → let size = minutes * minute_ns in
        let s = slot_start now size in
        ((now < s + slot_end_fraction)
          × (due_slot_opening now size ≡ none)
          × (next_slot_opening now size ≡ some (s + slot_end_fraction)))
        ⊎ ((s + slot_end_fraction ≤ now)
            × (now < s + size + slot_end_fraction)
            × (due_slot_opening now size ≡ some (s + slot_end_fraction))
            × (next_slot_opening now size ≡ some (s + size + slot_end_fraction)))
  unfolding due_slot_opening next_slot_opening
  slot_openings now minutes h = ground (arith, slot_start-covers now minutes h)

  -- For a window of whole minutes: either the closing instant of the slot, 995 ms before its end,
  -- is still to come, none is due and it is the next one; or it has come, it is due, and the next
  -- one is that of the following slot.
  slot_closings :
      (now minutes : ℕ)
      → 0 < minutes
      → let size = minutes * minute_ns in
        let s = slot_start now size in
        ((now < s + (size - slot_end_lead))
          × (due_slot_closing now size ≡ none)
          × (next_slot_closing now size ≡ some (s + (size - slot_end_lead))))
        ⊎ ((s + (size - slot_end_lead) ≤ now)
            × (now < s + size)
            × (due_slot_closing now size ≡ some (s + (size - slot_end_lead)))
            × (next_slot_closing now size ≡ some (s + size + (size - slot_end_lead))))
  unfolding due_slot_closing next_slot_closing
  slot_closings now minutes h = ground (arith, slot_start-covers now minutes h)
