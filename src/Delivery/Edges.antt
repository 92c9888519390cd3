-- ===== src/Delivery/Edges.antt =====
-- internal/delivery/worker.go: how often the loop over past slot edges in Run goes round.
use systemd_transition_expor.Base.{
  ℕ, zero, suc, ◌+◌, ◌-◌, ◌*◌, ◌<◌, ◌≡◌, refl, some, List, ltb, ◌==◌, arith, Bool-cases, inl, inr,
  ==_refl,
}
use systemd_transition_expor.Recovery.Slot.{
  slot_start, slot_opening_time, slot_closing_time, minute_ns, slot_start-covers,
}
use systemd_transition_expor.Delivery.Samples.{earlier_time}
use systemd_transition_expor.Delivery.Slots.{
  Edges, advance_past, fire, fire_past, enqueue_slot_sample,
}

-- Both next edges are set and lie after a time.
abbrev pub After : ℕ → Edges → Type 0
After now e =
    (a : ℕ) × (b : ℕ) × ((e.next_opening ≡ some a)
      × (e.next_closing ≡ some b)
      × (now < a)
      × (now < b))

module _ (offset minutes : ℕ) (positive : 0 < minutes) where
  abbrev size : ℕ
  size = minutes * minute_ns

  opening_later : (a : ℕ) → a < slot_opening_time offset (slot_start offset a size + size)
  opening_later a = omega (arith, (slot_start-covers offset a minutes positive).1)

  closing_later : (b : ℕ) → b < slot_closing_time offset (slot_start offset b size + size) size
  closing_later b = omega (arith, positive, (slot_start-covers offset b minutes positive).1)

  fire_past-After :
      (fuel now a b : ℕ) (pending : List ℕ)
      → (suc now - a) + (suc now - b) < fuel
      → After now (
          fire_past offset size fuel now
            (record { pending = pending; next_opening = some a; next_closing = some b }))
  unfolding fire_past fire advance_past earlier_time
  fire_past-After zero now a b pending h = absurd (omega (arith, h))
  fire_past-After (suc fuel) now a b pending h = elim (Bool-cases (ltb a b)) [
    | inl k ↦ elim (Bool-cases (ltb now a)) [
      | inl c ↦ rw (k, c) (a, b, (refl, refl, ground (arith, c), ground (arith, c, k)))
      | inr c ↦
          let u = slot_opening_time offset (slot_start offset a size + size) in
          rw (k, c, ==_refl a)
            (fire_past-After fuel now u b (enqueue_slot_sample (some a) pending)
              (ground (arith, h, c, opening_later a)))
    ]
    | inr k ↦ elim (Bool-cases (ltb now b)) [
      | inl c ↦ rw (k, c) (a, b, (refl, refl, ground (arith, c, k), ground (arith, c)))
      | inr c ↦ elim (Bool-cases (b == a)) [
        | inl m ↦
            let u = slot_opening_time offset (slot_start offset a size + size) in
            rw (k, c, m)
              (fire_past-After fuel now u b (enqueue_slot_sample (some b) pending)
                (ground (arith, h, c, m, opening_later a)))
        | inr m ↦
            let u = slot_closing_time offset (slot_start offset b size + size) size in
            rw (k, c, m)
              (fire_past-After fuel now a u (enqueue_slot_sample (some b) pending)
                (ground (arith, h, c, closing_later b)))
      ]
    ]
  ]

-- For a window of whole minutes the loop over the edges that are past ends: with more fuel than the
-- nanoseconds that the two next edges lie back together, both lie after the time when it stops.
pub fire_past-ends :
    (offset minutes fuel now a b : ℕ) (pending : List ℕ)
    → 0 < minutes
    → (suc now - a) + (suc now - b) < fuel
    → After now (
        fire_past offset
          (minutes * minute_ns)
          fuel
          now
          (record { pending = pending; next_opening = some a; next_closing = some b }))
fire_past-ends offset minutes fuel now a b pending positive h =
    fire_past-After offset minutes positive fuel now a b pending h
