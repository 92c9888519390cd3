-- ===== src/Delivery/Slots.antt =====
-- internal/delivery/worker.go: the queue of slot edges in `Run`. Times are nanoseconds.
use systemd_transition_expor.Base.{
  ℕ, zero, suc, ◌+◌, ◌-◌, ◌≤◌, Bool, true, false, Option, none, some, List, [], ◌∷◌, ◌++◌, ltb,
  ◌==◌, if◌then◌else◌, length, drop, arith, length-drop, Bool-cases, inl, inr,
}
use systemd_transition_expor.Recovery.Slot.{slot_start, slot_opening_time, slot_closing_time}
use systemd_transition_expor.Delivery.Samples.{earlier_time}

-- The pending edges and the next ones.
pub record Edges : Type 0 where
  pub pending : List ℕ
  pub next_opening : Option ℕ
  pub next_closing : Option ℕ

abbrev pub is_last : ℕ → List ℕ → Bool
is_last at [] = false
is_last at (x ∷ []) = x == at
is_last at (x ∷ y ∷ xs) = is_last at (y ∷ xs)

abbrev pub max_edges : ℕ
max_edges = 4

unfoldable pub enqueue_slot_sample : Option ℕ → List ℕ → List ℕ
enqueue_slot_sample none pending = pending
enqueue_slot_sample (some at) pending =
    let pending' = pending ++ at ∷ [] in
    if is_last at pending then pending else drop (length pending' - max_edges) pending'

abbrev pub same_time : Option ℕ → Option ℕ → Bool
same_time none none = true
same_time (some a) (some b) = a == b
same_time _ _ = false

module _ (offset size : ℕ) where
  unfoldable pub advance_past : Option ℕ → Edges → Edges
  advance_past fired e =
      if same_time fired e.next_opening
      then record e { next_opening = after_opening e.next_opening }
      else record e { next_closing = after_closing e.next_closing }
    where
      after_opening : Option ℕ → Option ℕ
      after_opening none = none
      after_opening (some t) = some (slot_opening_time offset (slot_start offset t size + size))

      after_closing : Option ℕ → Option ℕ
      after_closing none = none
      after_closing (some t) =
          some (slot_closing_time offset (slot_start offset t size + size) size)

  unfoldable pub fire : Option ℕ → Edges → Edges
  fire t e = advance_past t (record e { pending = enqueue_slot_sample t e.pending })

  -- The loop after the timer has fired, on fuel: one round for an edge that is already past.
  unfoldable pub fire_past : ℕ → ℕ → Edges → Edges
  fire_past zero now e = e
  fire_past (suc fuel) now e =
      let t = earlier_time e.next_opening e.next_closing in
      let rest = fire_past fuel now (fire t e) in if before now t then e else rest
    where
      before : ℕ → Option ℕ → Bool
      before now none = false
      before now (some t) = ltb now t

-- At most four edges wait, whatever fires.
enqueue_slot_sample-IsBounded :
    (t : Option ℕ) (pending : List ℕ)
    → length pending ≤ max_edges
    → length (enqueue_slot_sample t pending) ≤ max_edges
unfolding enqueue_slot_sample
enqueue_slot_sample-IsBounded none pending h = h
enqueue_slot_sample-IsBounded (some at) pending h = elim (Bool-cases (is_last at pending)) [
  | inl c ↦ rw c h
  | inr c ↦
      rw c
        (omega (arith, length-drop (length (pending ++ at ∷ []) - max_edges) (pending ++ at ∷ [])))
]

module _ (offset size : ℕ) where
  pub fire-IsBounded :
      (t : Option ℕ) (e : Edges)
      → length e.pending ≤ max_edges
      → length (fire offset size t e).pending ≤ max_edges
  unfolding fire advance_past
  fire-IsBounded t e h = ground (arith, enqueue_slot_sample-IsBounded t e.pending h)

  pub fire_past-IsBounded :
      (fuel now : ℕ) (e : Edges)
      → length e.pending ≤ max_edges
      → length (fire_past offset size fuel now e).pending ≤ max_edges
  unfolding fire_past
  fire_past-IsBounded zero now e h = h
  fire_past-IsBounded (suc fuel) now e h =
      let t = earlier_time e.next_opening e.next_closing in
      ground (arith, fire_past-IsBounded fuel now (fire offset size t e) (fire-IsBounded t e h))
