-- ===== src/Delivery/Bounds.antt =====
-- internal/delivery/worker.go: the backlog of samples and the edges that wait, over one round of Run.
use systemd_transition_expor.Base.{
  ℕ, ◌≤◌, ◌≡◌, refl, String, Bool, true, false, Option, none, some, List, [], ◌∷◌, ◌++◌, leb,
  if◌then◌else◌, length, length-append, arith, ◌∙◌, Bool-cases, inl, inr,
}
use systemd_transition_expor.Base.Text.{is_empty}
use systemd_transition_expor.Model.{StateSample, ServiceState}
use systemd_transition_expor.RemoteWrite.{SendError}
use systemd_transition_expor.Delivery.Samples.{
  max_pending_states, buffer_states, prune_states-IsBounded, slot_state_samples, drop_stale,
}
use systemd_transition_expor.Delivery.Slots.{max_edges, fire-IsBounded, fire_past-IsBounded}
use systemd_transition_expor.Delivery.Worker.{
  Target, Config, Worker, RecoveryJob, Command, transition, recovery_job, flushed, flush,
  events_sent, fill_sent, after_flush, send_recovery, states_sent, deliver_fresh, deliver_states,
  record_states, delivered_if, Input, from_queue, flush_tick, state_tick, done, slot_timer,
  mark_degraded, queue_size, enqueue, enqueue_all,
}
use systemd_transition_expor.Delivery.Rounds.{
  Round, heartbeat, send_slot_sample, try_slot_samples, try_recovery, job_done, prepare,
  take_command, select, step,
}

module _ {S : Type 0} where
  abbrev pub IsBounded : Worker S → Type 0
  IsBounded w =
      (length w.pending_states ≤ max_pending_states)
      × (length w.edges.pending ≤ max_edges)
      × (length w.queue ≤ queue_size)

  -- What one worker holds, another holds, or fewer samples.
  abbrev Holds : Worker S → Worker S → Type 0
  Holds w w' =
      (length w'.pending_states ≤ length w.pending_states)
      × (w'.edges.pending ≡ w.edges.pending)
      × (w'.queue ≡ w.queue)

  module _ (target : Target S) (config : Config) where
    flushed-Holds :
        (x : Option SendError × S) (w : Worker S) → Holds w (flushed target config x w).1
    unfolding flushed
    flushed-Holds (none, s) w = ground arith
    flushed-Holds (some x, s) w = ground arith

    flush-Holds : (w : Worker S) → Holds w (flush target config w).1
    unfolding flush
    flush-Holds w = ground (arith, flushed-Holds (target.send_events w.batch w.sender) w)

    events_sent-Holds :
        (job : RecoveryJob) (x : Option SendError × S) (w : Worker S)
        → Holds w (events_sent target config job x w).1
    unfolding events_sent
    events_sent-Holds job (none, s) w = ground arith
    events_sent-Holds job (some x, s) w = ground arith

    fill_sent-Holds :
        (job : RecoveryJob) (x : Option SendError × S) (w : Worker S)
        → Holds w (fill_sent target config job x w).1
    unfolding fill_sent
    fill_sent-Holds job (none, s) w =
        events_sent-Holds job (target.send_events job.events s) (record w { sender = s })
    fill_sent-Holds job (some x, s) w =
        let w' = record w { sender = s } in
        let w'' = if target.ended s then w' else mark_degraded w' in
        ground (arith, events_sent-Holds job (target.send_events job.events s) w'')

    after_flush-Holds :
        (next : Worker S → Bool × Worker S) (w : Worker S)
        → ((v : Worker S) → Holds v (next v).1)
        → (x : Bool × Worker S) → Holds w x.1
        → Holds w (after_flush target config next x).1
    unfolding after_flush
    after_flush-Holds next w h (true, v) k =
        (omega (arith, (h v).0, k.0), (h v).1 ∙ k.1, (h v).2 ∙ k.2)
    after_flush-Holds next w h (false, v) k = k

    send_recovery-Holds :
        (job : RecoveryJob) (w : Worker S) → Holds w (send_recovery target config job w).1
    unfolding send_recovery
    send_recovery-Holds job w =
        after_flush-Holds _ w (λ v. fill_sent-Holds job (target.send_states job.fill v.sender) v)
          (flush target config w) (flush-Holds w)

    states_sent-Holds :
        (xs : List StateSample) (x : Option SendError × S) (w : Worker S)
        → Holds w (states_sent target config xs x w).1
    unfolding states_sent
    states_sent-Holds xs (none, s) w = (omega arith, refl, refl)
    states_sent-Holds xs (some x, s) w = ground arith

    deliver_fresh-Holds :
        (xs : List StateSample) (w : Worker S) → Holds w (deliver_fresh target config xs w).1
    unfolding deliver_fresh
    deliver_fresh-Holds [] w = (omega arith, refl, refl)
    deliver_fresh-Holds (x ∷ xs) w =
        states_sent-Holds (x ∷ xs) (target.send_states (x ∷ xs) w.sender) w

    deliver_states-Holds : (w : Worker S) → Holds w (deliver_states target config w).1
    unfolding deliver_states
    deliver_states-Holds w = ground (
      arith,
      after_flush-Holds
          (λ v. deliver_fresh target config (drop_stale v.published v.pending_states) v) w
          (λ v. deliver_fresh-Holds (drop_stale v.published v.pending_states) v)
          (flush target config w) (flush-Holds w),
    )

    pub length-buffer_states :
        (now : ℕ) (pending xs : List StateSample)
        → length pending ≤ max_pending_states
        → length (buffer_states config.offset config.recovery_window now pending xs)
          ≤ max_pending_states
    unfolding buffer_states
    length-buffer_states now pending [] h = h
    length-buffer_states now pending (x ∷ xs) h =
        prune_states-IsBounded config.offset config.recovery_window now (pending ++ x ∷ xs)

    record_states-IsBounded :
        (now : ℕ) (xs : List StateSample) (w : Worker S)
        → IsBounded w
        → IsBounded (record_states target config now xs w).1
    unfolding record_states
    record_states-IsBounded now xs w h =
        ground (arith, length-buffer_states now w.pending_states xs h.0)

    delivered_if-IsBounded :
        (x : Bool × Worker S) → IsBounded x.1 → IsBounded (delivered_if target config x)
    delivered_if-IsBounded (true, w) h =
        let k = deliver_states-Holds w in (omega (arith, k.0, h.0), rw k.1 h.1, rw k.2 h.2)
    delivered_if-IsBounded (false, w) h = h

    module _ (current : String → Option ServiceState) (now : ℕ) where
      heartbeat-IsBounded :
          (w : Worker S) → IsBounded w → IsBounded (heartbeat target config current now w)
      unfolding heartbeat
      heartbeat-IsBounded w h = delivered_if-IsBounded _ (record_states-IsBounded now _ w h)

      send_slot_sample-IsBounded :
          (at : ℕ) (w : Worker S)
          → IsBounded w
          → IsBounded (send_slot_sample target config current now at w).1
      unfolding send_slot_sample
      send_slot_sample-IsBounded at w h =
          let xs = slot_state_samples config.services current (some at) in
          let r = record_states target config now xs w in
          let k = record_states-IsBounded now xs w h in
          let d = deliver_states-Holds r.1 in
          elim (Bool-cases (is_empty xs)) [
            | inl c ↦ rw c h
            | inr c ↦ elim (Bool-cases r.0) [
              | inl b ↦ rw (c, b) (omega (arith, d.0, k.0), rw d.1 k.1, rw d.2 k.2)
              | inr b ↦ rw (c, b) k
            ]
          ]

      try_slot_samples-IsBounded :
          (ats : List ℕ) (w : Worker S)
          → length ats ≤ max_edges
          → IsBounded w
          → IsBounded (try_slot_samples target config current now ats w)
      unfolding try_slot_samples
      try_slot_samples-IsBounded [] w l h = (h.0, omega arith, h.2)
      try_slot_samples-IsBounded (at ∷ ats) w l h =
          let r = send_slot_sample target config current now at w in
          let k = send_slot_sample-IsBounded at w h in
          let ih = try_slot_samples-IsBounded ats r.1 (omega (arith, l)) k in
          elim (Bool-cases r.0) [ inl c ↦ rw c ih | inr c ↦ rw c (k.0, l, k.2) ]

      try_recovery-IsBounded :
          (job : Option RecoveryJob) (w : Worker S)
          → IsBounded w
          → IsBounded (try_recovery target config current now job w)
      try_recovery-IsBounded none w h = h
      try_recovery-IsBounded (some job) w h =
          finished (send_recovery target config job w) (send_recovery-Holds job w)
        where
          finished :
              (x : Bool × Worker S) → Holds w x.1 → IsBounded (job_done target config current now x)
          finished (true, v) k = (omega (arith, k.0, h.0), rw k.1 h.1, rw k.2 h.2)
          finished (false, v) k = (omega (arith, k.0, h.0), rw k.1 h.1, rw k.2 h.2)

      prepare-IsBounded :
          (w : Worker S) → IsBounded w → IsBounded (prepare target config current now w)
      unfolding prepare
      prepare-IsBounded w h =
          let k = try_recovery-IsBounded w.pending_recovery w h in
          try_slot_samples-IsBounded _ _ k.1 k

      flush-IsBounded : (w : Worker S) → IsBounded w → IsBounded (flush target config w).1
      flush-IsBounded w h =
          let k = flush-Holds w in (omega (arith, k.0, h.0), rw k.1 h.1, rw k.2 h.2)

      take_command-IsBounded :
          (q : List Command) (w : Worker S)
          → length q ≤ queue_size
          → IsBounded w
          → IsBounded (take_command target config q w)
      take_command-IsBounded [] w l h = h
      take_command-IsBounded (transition e ∷ rest) w l h =
          let w' = record w { queue = rest; batch = w.batch ++ e ∷ [] } in
          elim (Bool-cases (leb config.batch_size (length w'.batch))) [
            | inl c ↦ rw c (flush-IsBounded w' (h.0, h.1, omega (arith, l)))
            | inr c ↦ rw c (h.0, h.1, omega (arith, l))
          ]
      take_command-IsBounded (recovery_job job ∷ rest) w l h = (h.0, h.1, omega (arith, l))

      select-IsBounded :
          (input : Input) (w : Worker S)
          → IsBounded w
          → IsBounded (select target config current now input w)
      unfolding select
      select-IsBounded from_queue w h = take_command-IsBounded w.queue w h.2 h
      select-IsBounded flush_tick w h = flush-IsBounded w h
      select-IsBounded state_tick w h = heartbeat-IsBounded w h
      select-IsBounded (slot_timer fuel) w h = (
        h.0,
        fire_past-IsBounded config.offset config.recovery_window fuel now _
            (fire-IsBounded config.offset config.recovery_window _ w.edges h.1),
        h.2,
      )
      select-IsBounded done w h = flush-IsBounded w h

    enqueue-IsBounded : (c : Command) (w : Worker S) → IsBounded w → IsBounded (enqueue c w).1
    unfolding enqueue
    enqueue-IsBounded c w h = ground (arith, h, length-append w.queue (c ∷ []))

    enqueue_all-IsBounded :
        (cs : List Command) (w : Worker S) → IsBounded w → IsBounded (enqueue_all cs w)
    unfolding enqueue_all
    enqueue_all-IsBounded [] w h = h
    enqueue_all-IsBounded (c ∷ cs) w h =
        enqueue_all-IsBounded cs (enqueue c w).1 (enqueue-IsBounded c w h)

    -- Whatever the select chooses and the receiver answers, a round of `Run` that starts with
    -- at most 10000 samples and four slot edges waiting and 100000 commands in the queue ends with
    -- at most so many.
    pub step-IsBounded :
        (r : Round) (w : Worker S) → IsBounded w → IsBounded (step target config r w)
    unfolding step
    step-IsBounded r w h = select-IsBounded r.current r.now r.input _ (
        enqueue_all-IsBounded r.waiting _
          (prepare-IsBounded r.current r.now _ (enqueue_all-IsBounded r.arrived w h)))
