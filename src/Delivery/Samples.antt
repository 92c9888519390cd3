-- ===== src/Delivery/Samples.antt =====
-- internal/delivery/worker.go: the bookkeeping on availability samples.
use systemd_transition_expor.Base.{
  ℕ, ◌-◌, ◌≤◌, ◌<◌, ◌≡◌, refl, String, Bool, true, false, Option, none, some, List, [], ◌∷◌, ◌++◌,
  ltb, leb, if◌then◌else◌, length, drop, filter_by, arith, All, All-drop, All-imp, length-drop,
  Bool-cases, inl, inr, lt→ltb, leb→le, filter_by-passes, eq_iff,
}
use systemd_transition_expor.Base.Dict.{Dict, lookup, insert, lookup-insert, lookup-insert_self}
use systemd_transition_expor.Model.{StateSample, ServiceState}
use systemd_transition_expor.Recovery.Slot.{slot_start, unix_milli}

abbrev pub max_pending_states : ℕ
max_pending_states = 10000

-- The newest so many.
unfoldable pub capped : ℕ → List StateSample → List StateSample
capped most xs = drop (length xs - most) xs

-- `pruneStates`, with the zone's offset and the window's size, which is 0 for none.
unfoldable pub prune_states : ℕ → ℕ → ℕ → List StateSample → List StateSample
prune_states offset size now xs = capped max_pending_states (
    if ltb 0 size
    then filter_by (λ x. leb (unix_milli (slot_start offset now size)) x.timestamp_unix_ms) xs
    else xs)

unfoldable pub buffer_states : ℕ → ℕ → ℕ → List StateSample → List StateSample → List StateSample
buffer_states offset size now pending [] = pending
buffer_states offset size now pending (x ∷ xs) = prune_states offset size now (pending ++ x ∷ xs)

abbrev pub is_stale : Option ℕ → ℕ → Bool
is_stale none t = false
is_stale (some last) t = leb t last

unfoldable pub drop_stale : Dict ℕ → List StateSample → List StateSample
drop_stale published [] = []
drop_stale published (x ∷ xs) =
    let rest = drop_stale published xs in
    if is_stale (lookup x.service published) x.timestamp_unix_ms then rest else x ∷ rest

unfoldable pub note_published : Dict ℕ → String → ℕ → Dict ℕ
note_published published service t =
    if is_stale (lookup service published) t then published else insert service t published

unfoldable pub note_samples : List StateSample → Dict ℕ → Dict ℕ
note_samples [] published = published
note_samples (x ∷ xs) published =
    note_samples xs (note_published published x.service x.timestamp_unix_ms)

-- `none` for the zero time.
unfoldable pub slot_state_samples :
    List String → (String → Option ServiceState) → Option ℕ → List StateSample
slot_state_samples services current none = []
slot_state_samples [] current (some at) = []
slot_state_samples (service ∷ services) current (some at) =
    with_state (current service) (slot_state_samples services current (some at))
  where
    with_state : Option ServiceState → List StateSample → List StateSample
    with_state none rest = rest
    with_state (some s) rest =
        record { service = service; state = s.availability; timestamp_unix_ms = unix_milli at }
        ∷ rest

unfoldable pub earlier_time : Option ℕ → Option ℕ → Option ℕ
earlier_time none b = b
earlier_time (some a) none = some a
earlier_time (some a) (some b) = if ltb a b then some a else some b

-- The latest accepted time of a service never falls.
note_published-grows :
    (published : Dict ℕ) (service other : String) (t u : ℕ)
    → is_stale (lookup other published) u ≡ true
    → is_stale (lookup other (note_published published service t)) u ≡ true
unfolding note_published
note_published-grows published service other t u h =
    elim (Bool-cases (is_stale (lookup service published) t)) [
      | inl c ↦ rw c h
      | inr c ↦
          rw (c, lookup-insert service other t published) (ground (arith, eq_iff service other))
    ]

-- A noted sample is stale afterwards.
note_published_self :
    (published : Dict ℕ) (service : String) (t : ℕ)
    → is_stale (lookup service (note_published published service t)) t ≡ true
unfolding note_published
note_published_self published service t =
    elim (Bool-cases (is_stale (lookup service published) t)) [
      | inl c ↦ rw c c
      | inr c ↦ rw (c, lookup-insert_self service t published) (ground arith)
    ]

note_samples-grows :
    (xs : List StateSample) (published : Dict ℕ) (other : String) (u : ℕ)
    → is_stale (lookup other published) u ≡ true
    → is_stale (lookup other (note_samples xs published)) u ≡ true
unfolding note_samples
note_samples-grows [] published other u h = h
note_samples-grows (x ∷ xs) published other u h =
    note_samples-grows xs _ other u
      (note_published-grows published x.service other x.timestamp_unix_ms u h)

note_samples-stale :
    (xs : List StateSample) (published : Dict ℕ)
    → All
        (λ x. is_stale (lookup x.service (note_samples xs published)) x.timestamp_unix_ms ≡ true)
        xs
unfolding note_samples
note_samples-stale [] published = tt
note_samples-stale (x ∷ xs) published = (
  note_samples-grows xs _ x.service x.timestamp_unix_ms
      (note_published_self published x.service x.timestamp_unix_ms),
  note_samples-stale xs _,
)

drop_stale-All :
    (published : Dict ℕ) (xs : List StateSample)
    → All (λ x. is_stale (lookup x.service published) x.timestamp_unix_ms ≡ true) xs
    → drop_stale published xs ≡ []
unfolding drop_stale
drop_stale-All published [] h = refl
drop_stale-All published (x ∷ xs) h = rw h.0 (drop_stale-All published xs h.1)

-- Samples that were noted as accepted are all stale afterwards, whatever was noted since: none of
-- them is sent again.
drop_stale-note_samples :
    (xs later : List StateSample) (published : Dict ℕ)
    → drop_stale (note_samples later (note_samples xs published)) xs ≡ []
drop_stale-note_samples xs later published = drop_stale-All _ xs (
    All-imp _ _ xs (λ x h. note_samples-grows later _ x.service x.timestamp_unix_ms h)
      (note_samples-stale xs published))

length-capped : (most : ℕ) (xs : List StateSample) → length (capped most xs) ≤ most
unfolding capped
length-capped most xs = omega (arith, length-drop (length xs - most) xs)

-- However many samples are buffered, at most 10000 are kept.
pub prune_states-IsBounded :
    (offset size now : ℕ) (xs : List StateSample)
    → length (prune_states offset size now xs) ≤ max_pending_states
unfolding prune_states
prune_states-IsBounded offset size now xs = length-capped max_pending_states _

-- With a window, `pruneStates` keeps no sample from before the current slot.
prune_states-InSlot :
    (offset size now : ℕ) (xs : List StateSample)
    → 0 < size
    → All
        (λ x. unix_milli (slot_start offset now size) ≤ x.timestamp_unix_ms)
        (prune_states offset size now xs)
unfolding prune_states capped
prune_states-InSlot offset size now xs h = rw (lt→ltb 0 size h) (
    All-drop _ _ _ (
      All-imp _ _ _ (λ x k. leb→le (unix_milli (slot_start offset now size)) x.timestamp_unix_ms k)
        (filter_by-passes _ xs)))
