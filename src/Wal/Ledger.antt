-- ===== src/Wal/Ledger.antt =====
-- internal/wal/wal.go: `Append` and `SaveState` against the abstract log, a list of accepted events.
use systemd_transition_expor.Base.{
  ◌≡◌, ◌≢◌, refl, Bool, true, false, not, ◌⊎◌, inl, inr, Option, none, some, List, [], ◌∷◌, ◌++◌,
  if◌then◌else◌, is_none, arith, sym, ap, ◌∙◌, Bool-cases, Option-cases,
}
use mathlib.Core.Path.{subst}
use mathlib.Core.List.{append-nil, append_assoc}
use systemd_transition_expor.Base.Dict.{insert}
use systemd_transition_expor.Model.{Event, ServiceState}
use systemd_transition_expor.Wal.Codec.{EventCodec}
use systemd_transition_expor.Wal.{
  Errno, is_no_space, StateFault, Faults, Wal, sync_dir, state_written, flush_state, write_state,
  flush_rest, flush, remember, appended, append_flushed, append, saved, save_state,
}
use systemd_transition_expor.Wal.Append.{
  AllRollBack, Written, stored, unsynced, failed, write_event-Written, line, Holds, Holds-same,
  snoc_line, Flushed, flush_pending-Flushed,
}

module _ (codec : EventCodec) where
  -- The state file is another file.
  record SameLog (w w' : Wal) : Type 0 where
    same_events : w'.events ≡ w.events
    same_pending : w'.pending ≡ w.pending
    same_sync : w'.sync_needed ≡ w.sync_needed

  sync_dir-same : (f : StateFault) (w : Wal) → (sync_dir codec f w).1 ≡ w
  unfolding sync_dir
  sync_dir-same f w = ground arith

  write_state-SameLog : (f : StateFault) (w : Wal) → SameLog w (write_state codec f w).1
  unfolding write_state
  write_state-SameLog f w = ground arith

  state_written-SameLog : (r : Option Errno) (w : Wal) → SameLog w (state_written codec r w).1
  unfolding state_written
  state_written-SameLog none w = record {
    same_events = refl;
    same_pending = refl;
    same_sync = refl;
  }
  state_written-SameLog (some x) w = record {
    same_events = refl;
    same_pending = refl;
    same_sync = refl;
  }

  Flushed-SameLog :
      (all : List Event) (r : Option Errno) (w w' : Wal)
      → Flushed codec all none w
      → SameLog w w'
      → Flushed codec all r w'
  Flushed-SameLog all r w w' h g = record {
    holds = Holds-same codec all w w' h.holds g.same_events g.same_pending;
    drained = λ z. g.same_pending ∙ h.drained refl;
    synced = λ z. g.same_sync ∙ h.synced refl;
  }

  state_written-Flushed :
      (all : List Event) (r : Option Errno) (w : Wal)
      → Flushed codec all none w
      → Flushed codec all (state_written codec r w).0 (state_written codec r w).1
  state_written-Flushed all r w h =
      Flushed-SameLog all (state_written codec r w).0 w (state_written codec r w).1 h
        (state_written-SameLog r w)

  flush_state-Flushed :
      (all : List Event) (f : StateFault) (r : Option Errno) (w : Wal)
      → Flushed codec all r w
      → Flushed codec all (flush_state codec f r w).0 (flush_state codec f r w).1
  unfolding flush_state
  flush_state-Flushed all f (some x) w h = h
  flush_state-Flushed all f none w h = elim (Bool-cases w.state_dirty) [
    | inr c ↦ subst (λ b. Flushed codec all (pick b).0 (pick b).1) (sym c) h
    | inl c ↦
        subst (λ b. Flushed codec all (pick b).0 (pick b).1) (sym c)
          (state_written-Flushed all r' w'
            (Flushed-SameLog all none w w' h (write_state-SameLog f w)))
  ]
    where
      r' : Option Errno
      r' = (write_state codec f w).0

      w' : Wal
      w' = (write_state codec f w).1

      pick : Bool → Option Errno × Wal
      pick b = if b then state_written codec r' w' else (none, w)

  flush_rest-Flushed :
      (all : List Event) (f : Faults) (w : Wal)
      → AllRollBack f
      → Holds codec all w
      → w.sync_needed ≡ false
      → Flushed codec all (flush_rest codec f w).0 (flush_rest codec f w).1
  unfolding flush_rest
  flush_rest-Flushed all f w g h n =
      flush_state-Flushed all f.on_state _ _
        (flush_pending-Flushed codec f.flushed 0 w.pending all w g.flushed h refl n)

  -- A flush keeps what the log holds; one that succeeds leaves no event pending.
  flush-Flushed :
      (all : List Event) (f : Faults) (w : Wal)
      → AllRollBack f
      → Holds codec all w
      → Flushed codec all (flush codec f w).0 (flush codec f w).1
  unfolding flush
  flush-Flushed all f w g h = elim (Bool-cases w.sync_needed) [
    | inr c ↦
        subst (λ b. Flushed codec all (pick b).0 (pick b).1) (sym c)
          (flush_rest-Flushed all f w g h c)
    | inl c ↦
        subst (λ b. Flushed codec all (pick b).0 (pick b).1) (sym c)
          (elim (Option-cases f.pre_sync) [
            | inr (x, d) ↦ rw d (record { holds = h; drained = λ z. cc; synced = λ z. cc })
            | inl d ↦ simp d (
                flush_rest-Flushed all f (record w { sync_needed = false }) g
                  (record { file = h.file; on_disk = h.on_disk; in_order = h.in_order }) refl)
          ])
  ]
    where
      pick : Bool → Option Errno × Wal
      pick b =
          if not b
          then flush_rest codec f w
          else if not (is_none f.pre_sync)
          then (f.pre_sync, w)
          else flush_rest codec f (record w { sync_needed = false })

  Holds-remember :
      (all : List Event) (w : Wal) (v : Event)
      → Holds codec all w
      → Holds codec (all ++ v ∷ []) (remember codec v w)
  unfolding remember
  Holds-remember all w v h = record {
    file = h.file;
    on_disk = h.on_disk;
    in_order = sym (append_assoc h.file w.pending (v ∷ [])) ∙ ap (λ t. t ++ v ∷ []) h.in_order;
  }

  -- What an append may come to: the event is accepted, or the error is returned and the log holds
  -- what it held, or the event as well where the record is in the file but could not be synced.
  pub record Accepts (all : List Event) (v : Event) (r : Option Errno) (w : Wal) : Type 0 where
    pub accepted : r ≡ none → Holds codec (all ++ v ∷ []) w
    pub rejected : r ≢ none → Holds codec all w ⊎ Holds codec (all ++ v ∷ []) w

  Holds-blocked :
      (all : List Event) (b : Bool) (w : Wal)
      → Holds codec all w
      → Holds codec all (record w { blocked = b })
  Holds-blocked all b w h = record { file = h.file; on_disk = h.on_disk; in_order = h.in_order }

  deferred-Accepts :
      (all : List Event) (v : Event) (x : Errno) (kept w : Wal)
      → Holds codec (all ++ v ∷ []) kept
      → Holds codec all w ⊎ Holds codec (all ++ v ∷ []) w
      → let r : Option Errno × Wal =
          if is_no_space x then (none, record kept { blocked = true }) else (some x, w) in
        Accepts all v r.0 r.1
  deferred-Accepts all v x kept w h g = elim (Bool-cases (is_no_space x)) [
    | inl c ↦ rw c (record {
      accepted = λ z. Holds-blocked (all ++ v ∷ []) true kept h;
      rejected = λ z. absurd (z refl);
    })
    | inr c ↦ rw c (record { accepted = λ z. cc; rejected = λ z. g })
  ]

  Holds-grown_last :
      (all : List Event) (v : Event) (w w' : Wal)
      → Holds codec all w
      → w.pending ≡ []
      → w'.events ≡ w.events ++ line codec v
      → w'.pending ≡ w.pending
      → Holds codec (all ++ v ∷ []) w'
  Holds-grown_last all v w w' h p e q = record {
    file = h.file ++ v ∷ [];
    on_disk = e ∙ (ap (λ t. t ++ line codec v) h.on_disk ∙ snoc_line codec h.file v);
    in_order =
        ap (λ t. (h.file ++ v ∷ []) ++ t) (q ∙ p)
        ∙ (append-nil (h.file ++ v ∷ [])
            ∙ ap (λ t. t ++ v ∷ [])
                (sym (append-nil h.file) ∙ (ap (λ t. h.file ++ t) (sym p) ∙ h.in_order)));
  }

  appended-Accepts :
      (all : List Event) (v : Event) (w : Wal) (r : Option Errno) (w' : Wal)
      → Holds codec all w
      → w.pending ≡ []
      → w.sync_needed ≡ false
      → Written w (line codec v) r w'
      → Accepts all v (appended codec v r w').0 (appended codec v r w').1
  unfolding appended
  appended-Accepts all v w r w' h p n (stored e same) = rw e (record {
    accepted = λ z.
        Holds-blocked (all ++ v ∷ []) false w'
          (Holds-grown_last all v w w' h p (ap (λ t. t.events) same) (ap (λ t. t.pending) same));
    rejected = λ z. absurd (z refl);
  })
  appended-Accepts all v w r w' h p n (unsynced x e same) =
      let g =
        Holds-grown_last all v w w' h p (ap (λ t. t.events) same) (ap (λ t. t.pending) same) in
      let kept = if w'.sync_needed then w' else remember codec v w' in
      let same_kept : kept ≡ w' =
        ap (λ b. if b then w' else remember codec v w') (ap (λ (t : Wal). t.sync_needed) same) in
      rw e (
        deferred-Accepts all v x kept w' (subst (Holds codec (all ++ v ∷ [])) (sym same_kept) g)
          (inr g))
  appended-Accepts all v w r w' h p n (failed x e same) =
      let g = Holds-same codec all w w' h (ap (λ t. t.events) same) (ap (λ t. t.pending) same) in
      let kept = if w'.sync_needed then w' else remember codec v w' in
      let same_kept : kept ≡ remember codec v w' =
        ap (λ b. if b then w' else remember codec v w')
          (ap (λ (t : Wal). t.sync_needed) same ∙ n) in
      rw e (
        deferred-Accepts all v x kept w'
          (subst (Holds codec (all ++ v ∷ [])) (sym same_kept) (Holds-remember all w' v g)) (inl g))

  append_flushed-Accepts :
      (all : List Event) (f : Faults) (v : Event) (r : Option Errno) (w : Wal)
      → AllRollBack f
      → Flushed codec all r w
      → Accepts all v (append_flushed codec f v r w).0 (append_flushed codec f v r w).1
  unfolding append_flushed
  append_flushed-Accepts all f v (some x) w g h =
      deferred-Accepts all v x (remember codec v w) w (Holds-remember all w v h.holds) (inl h.holds)
  append_flushed-Accepts all f v none w g h =
      appended-Accepts all v w _ _ h.holds (h.drained refl) (h.synced refl)
        (write_event-Written codec f.own v w g.own)

  -- `Append` to a log that holds some events, on disk or pending, where every failed write is
  -- rolled back: if it returns no error, the log holds those events and then the new one; if it
  -- returns an error, it holds those events, or those events and then the new one.
  pub append-Accepts :
      (all : List Event) (f : Faults) (v : Event) (w : Wal)
      → AllRollBack f
      → Holds codec all w
      → Accepts all v (append codec f v w).0 (append codec f v w).1
  unfolding append
  append-Accepts all f v w g h = append_flushed-Accepts all f v _ _ g (flush-Flushed all f w g h)

  saved-Holds :
      (all : List Event) (r : Option Errno) (w : Wal)
      → Holds codec all w
      → Holds codec all (saved codec r w).1
  unfolding saved
  saved-Holds all none w h = Holds-blocked all false w h
  saved-Holds all (some x) w h = elim (Bool-cases (is_no_space x)) [
    | inl c ↦ rw c (Holds-blocked all true w h)
    | inr c ↦ rw c h
  ]

  -- `SaveState` on a log that holds some events, on disk or pending, leaves it holding the same
  -- events, whether it returns an error or not, if every failed write is rolled back.
  pub save_state-Holds :
      (all : List Event) (f : Faults) (s : ServiceState) (w : Wal)
      → AllRollBack f
      → Holds codec all w
      → Holds codec all (save_state codec f s w).1
  unfolding save_state
  save_state-Holds all f s w g h =
      let w' : Wal = record w { states = insert s.service s w.states; state_dirty = true } in
      saved-Holds all _ _
        (flush-Flushed all f w' g
          (record { file = h.file; on_disk = h.on_disk; in_order = h.in_order })).holds
