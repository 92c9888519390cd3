-- ===== src/RemoteWrite/Checkpoint.antt =====
-- `Send` of internal/remote_write/remote_write.go as a whole: its position and what was accepted.
use systemd_transition_expor.Base.{
  ℕ, suc, ◌≤◌, ◌<◌, ◌≡◌, ◌≢◌, Bool, true, false, inl, inr, ◌⊎◌, none, some, List, [], ◌∷◌, arith,
  sym, Bool-cases, All, All-imp, filter_by-passes, length, filter_by, ltb, ltb→lt, lt→ltb,
}
use systemd_transition_expor.Base.Sort.{
  place, sort_stable, All-place, All-sort_stable, All-sort_stable_inv, IsSortedBy,
  sort_stable-IsSortedBy,
}
use systemd_transition_expor.Model.{Event}
use systemd_transition_expor.RemoteWrite.Delivery.{
  acknowledged, IsStrict, RunSent, send_batches-RunSent,
}
use systemd_transition_expor.RemoteWrite.{World, Sender, save_checkpoint, pending_events, send}

-- No two events carry one number.
abbrev pub Distinct : List Event → Type 0
Distinct [] = Unit
Distinct (x ∷ xs) = All (λ (y : Event). x.sequence ≢ y.sequence) xs × Distinct xs

All-filter_by {ℓ} :
    {A : Type ℓ} (P : A → Type 0) (p : A → Bool) (xs : List A) → All P xs → All P (filter_by p xs)
All-filter_by P p [] h = tt
All-filter_by P p (x ∷ xs) h = elim (Bool-cases (p x)) [
  | inl c ↦ rw c (h.0, All-filter_by P p xs h.1)
  | inr c ↦ rw c (All-filter_by P p xs h.1)
]

All-filter_by_inv {ℓ} :
    {A : Type ℓ} (P : A → Type 0) (p : A → Bool) (xs : List A)
    → All P (filter_by p xs)
    → All (λ x. p x ≡ true → P x) xs
All-filter_by_inv P p [] h = tt
All-filter_by_inv P p (x ∷ xs) h = elim (Bool-cases (p x)) [
  | inl c ↦
      let h' : P x × All P (filter_by p xs) = rw c at h in
      ((λ e. h'.0), All-filter_by_inv P p xs h'.1)
  | inr c ↦ let h' : All P (filter_by p xs) = rw c at h in ((λ e. cc), All-filter_by_inv P p xs h')
]

Distinct-filter_by : (p : Event → Bool) (xs : List Event) → Distinct xs → Distinct (filter_by p xs)
Distinct-filter_by p [] h = tt
Distinct-filter_by p (x ∷ xs) h = elim (Bool-cases (p x)) [
  | inl c ↦ rw c (All-filter_by _ p xs h.0, Distinct-filter_by p xs h.1)
  | inr c ↦ rw c (Distinct-filter_by p xs h.1)
]

module _ (less : Event → Event → Bool) where
  Distinct-place :
      (x : Event) (ys : List Event)
      → All (λ y. x.sequence ≢ y.sequence) ys
      → Distinct ys
      → Distinct (place less x ys)
  unfolding place
  Distinct-place x [] h d = (tt, tt)
  Distinct-place x (y ∷ ys) h d = elim (Bool-cases (less y x)) [
    | inl c ↦ rw c (
      All-place less (λ z. y.sequence ≢ z.sequence) x ys (λ e. h.0 (sym e)) d.0,
      Distinct-place x ys h.1 d.1,
    )
    | inr c ↦ rw c (h, d)
  ]

  Distinct-sort_stable : (xs : List Event) → Distinct xs → Distinct (sort_stable less xs)
  unfolding sort_stable
  Distinct-sort_stable [] d = tt
  Distinct-sort_stable (x ∷ xs) d =
      Distinct-place x (sort_stable less xs) (All-sort_stable less _ xs d.0)
        (Distinct-sort_stable xs d.1)

sorted-Distinct-IsStrict :
    (xs : List Event) → IsSortedBy (λ (e : Event). e.sequence) xs → Distinct xs → IsStrict xs
sorted-Distinct-IsStrict [] s d = tt
sorted-Distinct-IsStrict (x ∷ xs) s d = (above x xs s.0 d.0, sorted-Distinct-IsStrict xs s.1 d.1)
  where
    above :
        (x : Event) (xs : List Event)
        → All (λ (y : Event). x.sequence ≤ y.sequence) xs
        → All (λ (y : Event). x.sequence ≢ y.sequence) xs
        → All (λ (y : Event). x.sequence < y.sequence) xs
    above x [] le ne = tt
    above x (y ∷ ys) le ne = (omega (arith, le.0, ne.0), above x ys le.1 ne.1)

pending_events-IsStrict :
    (last : ℕ) (events : List Event) → Distinct events → IsStrict (pending_events last events)
unfolding pending_events
pending_events-IsStrict last events d =
    let less = λ (a b : Event). ltb a.sequence b.sequence in
    let kept = filter_by (λ (e : Event). ltb last e.sequence) events in
    sorted-Distinct-IsStrict (sort_stable less kept)
      (sort_stable-IsSortedBy less (λ e. e.sequence) (λ x y h. ground arith) (λ x y h. ground arith)
        kept)
      (Distinct-sort_stable less kept (Distinct-filter_by _ events d))

pending_events-above :
    (last : ℕ) (events : List Event) → All (λ e. last < e.sequence) (pending_events last events)
unfolding pending_events
pending_events-above last events =
    All-sort_stable _ _ _
      (All-imp _ _ _ (λ e h. ltb→lt last e.sequence h) (filter_by-passes _ events))

-- What holds of the pending events holds of every event above the position.
pending_events-All :
    (P : Event → Type 0) (last : ℕ) (events : List Event)
    → All P (pending_events last events)
    → All (λ e. last < e.sequence → P e) events
unfolding pending_events
pending_events-All P last events h =
    All-imp _ _ events (λ e k lt. k (lt→ltb last e.sequence lt))
      (All-filter_by_inv P _ events (All-sort_stable_inv _ P _ h))

module _ (world : World) where
  send-RunSent :
      (k : ℕ) (events : List Event) (s : Sender)
      → s.batch_size ≡ suc k
      → Distinct events
      → RunSent
          (pending_events s.last_sent events)
          s
          (send world events s).0
          (send world events s).1
  unfolding send
  send-RunSent k events s n d =
      let pending = pending_events s.last_sent events in
      send_batches-RunSent world (length pending) k pending s (omega arith) n
        (pending_events-IsStrict s.last_sent events d) (pending_events-above s.last_sent events)

  -- With a positive batch size and events of distinct numbers: if `Send` returns no error, every
  -- event above the position it started from was carried by a request that was answered by a 2xx
  -- status.
  pub send_delivers :
      (k : ℕ) (events : List Event) (s : Sender)
      → s.batch_size ≡ suc k
      → Distinct events
      → (send world events s).0 ≡ none
      → All
          (λ e. s.last_sent < e.sequence → acknowledged (send world events s).1.accepted e ≡ true)
          events
  send_delivers k events s n d h =
      pending_events-All _ s.last_sent events ((send-RunSent k events s n d).done h)

  -- With a positive batch size and events of distinct numbers: whether `Send` fails or not, its
  -- position never falls, and every event of the call between the old position and the new one
  -- was carried by a request that was answered by a 2xx status.
  pub send_skips_nothing :
      (k : ℕ) (events : List Event) (s : Sender)
      → s.batch_size ≡ suc k
      → Distinct events
      → (s.last_sent ≤ (send world events s).1.last_sent)
        × All
            (λ e.
              s.last_sent < e.sequence
              → e.sequence ≤ (send world events s).1.last_sent
              → acknowledged (send world events s).1.accepted e ≡ true)
            events
  send_skips_nothing k events s n d =
      let r = send-RunSent k events s n d in
      (r.grows, pending_events-All _ s.last_sent events r.passed)

  -- Saving a number above the position: if it succeeds, the number is in the file and is the
  -- position; if it fails, the position stays, and the file has the old number or the new one.
  save_checkpoint_cases :
      (seq : ℕ) (s : Sender)
      → s.last_sent < seq
      → (((save_checkpoint world seq s).0 ≡ true)
          × ((save_checkpoint world seq s).1.checkpoint ≡ some seq)
          × ((save_checkpoint world seq s).1.last_sent ≡ seq))
        ⊎ (((save_checkpoint world seq s).0 ≡ false)
            × (((save_checkpoint world seq s).1.checkpoint ≡ s.checkpoint)
                ⊎ ((save_checkpoint world seq s).1.checkpoint ≡ some seq))
            × ((save_checkpoint world seq s).1.last_sent ≡ s.last_sent))
  unfolding save_checkpoint
  save_checkpoint_cases seq s h = ground arith
