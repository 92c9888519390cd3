-- ===== src/Delivery/Outcomes.antt =====
-- internal/delivery/worker.go: where the transitions are that the worker has taken.
use systemd_transition_expor.Base.{
  ℕ, ◌+◌, ◌≡◌, refl, ap, ◌∙◌, String, Bool, true, false, Option, none, some, List, [], ◌∷◌, ◌++◌,
  leb, if◌then◌else◌, length, length-append, arith, Bool-cases, inl, inr,
}
use systemd_transition_expor.Base.Text.{is_empty}
use systemd_transition_expor.Model.{Event, StateSample, ServiceState}
use systemd_transition_expor.RemoteWrite.{SendError}
use systemd_transition_expor.Delivery.Samples.{slot_state_samples, drop_stale}
use systemd_transition_expor.Delivery.Worker.{
  Target, Config, Worker, RecoveryJob, Command, transition, recovery_job, flushed, flush,
  events_sent, fill_sent, after_flush, send_recovery, states_sent, deliver_fresh, deliver_states,
  record_states, delivered_if, Input, from_queue, flush_tick, state_tick, done, slot_timer,
  mark_degraded, merge, enqueue, enqueue_all,
}
use systemd_transition_expor.Delivery.Rounds.{
  Round, heartbeat, send_slot_sample, try_slot_samples, try_recovery, job_done, prepare,
  take_command, select, step,
}

abbrev pub queued : List Command → ℕ
queued [] = 0
queued (transition e ∷ q) = 1 + queued q
queued (recovery_job job ∷ q) = length job.events + queued q

abbrev pub in_job : Option RecoveryJob → ℕ
in_job none = 0
in_job (some job) = length job.events

-- The events of a command that the queue takes.
module _ {S : Type 0} where
  unfoldable pub admitted : List Command → Worker S → ℕ
  unfolding enqueue
  admitted [] w = 0
  admitted (c ∷ cs) w =
      let rest = admitted cs (enqueue c w).1 in
      if (enqueue c w).0 then queued (c ∷ []) + rest else rest

  -- Those of one round of the loop.
  unfoldable pub admitted_in : Target S → Config → Round → Worker S → ℕ
  admitted_in target config r w =
      let ready = prepare target config r.current r.now (enqueue_all r.arrived w) in
      admitted r.arrived w + admitted r.waiting ready

queued-snoc : (q : List Command) (c : Command) → queued (q ++ c ∷ []) ≡ queued q + queued (c ∷ [])
queued-snoc [] c = omega arith
queued-snoc (transition e ∷ q) c = omega (arith, queued-snoc q c)
queued-snoc (recovery_job job ∷ q) c = omega (arith, queued-snoc q c)

-- `count` is the number of events that were in calls of `Send` that returned no error.
module _ {S : Type 0} (count : S → ℕ) where
  -- The events in the queue, the batch and the job, those that were dropped and those handed over.
  abbrev pub accounted : Worker S → ℕ
  accounted w =
      length w.batch + queued w.queue + in_job w.pending_recovery + w.dropped + count w.sender

  -- A call of `Send` with so many events, at so high a count.
  abbrev pub Counts : ℕ → ℕ → Option SendError × S → Type 0
  Counts before n (none, s) = count s ≡ before + n
  Counts before n (some x, s) = count s ≡ before

  -- So many events more in the batch, dropped or handed over; the queue and the job as they were.
  abbrev Gains : ℕ → Worker S → Worker S → Type 0
  Gains n w w' =
      (length w'.batch + w'.dropped + count w'.sender
        ≡ length w.batch + w.dropped + count w.sender + n)
      × (w'.queue ≡ w.queue)
      × (w'.pending_recovery ≡ w.pending_recovery)

  abbrev Keeps : Worker S → Worker S → Type 0
  Keeps w w' = Gains 0 w w'

  Keeps-trans : (n : ℕ) (u v w : Worker S) → Keeps u v → Gains n v w → Gains n u w
  Keeps-trans n u v w h k = (omega (arith, h.0, k.0), k.1 ∙ h.1, k.2 ∙ h.2)

  module _ (target : Target S) (config : Config)
      (sends : (es : List Event) (s : S) → Counts (count s) (length es) (target.send_events es s))
      (states : (xs : List StateSample) (s : S) → count (target.send_states xs s).1 ≡ count s) where
    flushed-Keeps :
        (x : Option SendError × S) (w : Worker S)
        → Counts (count w.sender) (length w.batch) x
        → Keeps w (flushed target config x w).1
    unfolding flushed
    flushed-Keeps (none, s) w h = (omega (arith, h), refl, refl)
    flushed-Keeps (some x, s) w h = ground (arith, h)

    flush-Keeps : (w : Worker S) → Keeps w (flush target config w).1
    unfolding flush
    flush-Keeps w =
        ground
          (arith, flushed-Keeps (target.send_events w.batch w.sender) w (sends w.batch w.sender))

    -- What an attempt at a job gains: its events if it is done, and nothing otherwise.
    abbrev Attempts : RecoveryJob → Worker S → Bool × Worker S → Type 0
    Attempts job w x = Gains (if x.0 then length job.events else 0) w x.1

    events_sent-Attempts :
        (job : RecoveryJob) (x : Option SendError × S) (w : Worker S)
        → Counts (count w.sender) (length job.events) x
        → Attempts job w (events_sent target config job x w)
    unfolding events_sent
    events_sent-Attempts job (none, s) w h = (omega (arith, h), refl, refl)
    events_sent-Attempts job (some x, s) w h = ground (arith, h)

    -- Whether the failed fill has marked the worker makes no difference.
    resent-Attempts :
        (job : RecoveryJob) (marked : Bool) (w : Worker S)
        → Attempts job w (
            events_sent target config job
              (target.send_events job.events w.sender)
              (if marked then w else mark_degraded w))
    unfolding mark_degraded
    resent-Attempts job true w =
        events_sent-Attempts job (target.send_events job.events w.sender) w
          (sends job.events w.sender)
    resent-Attempts job false w =
        events_sent-Attempts job (target.send_events job.events w.sender) (mark_degraded w)
          (sends job.events w.sender)

    fill_sent-Attempts :
        (job : RecoveryJob) (x : Option SendError × S) (w : Worker S)
        → count x.1 ≡ count w.sender
        → Attempts job w (fill_sent target config job x w)
    unfolding fill_sent mark_degraded
    fill_sent-Attempts job (none, s) w h =
        let w' = record w { sender = s } in
        Keeps-trans _ w w' (events_sent target config job (target.send_events job.events s) w').1
          (omega (arith, h), refl, refl)
          (events_sent-Attempts job (target.send_events job.events s) w' (sends job.events s))
    fill_sent-Attempts job (some x, s) w h =
        ground (arith, h, resent-Attempts job (target.ended s) (record w { sender = s }))

    after_flush-Attempts :
        (job : RecoveryJob) (next : Worker S → Bool × Worker S) (w : Worker S)
        → ((v : Worker S) → Attempts job v (next v))
        → (x : Bool × Worker S) → Keeps w x.1
        → Attempts job w (after_flush target config next x)
    unfolding after_flush
    after_flush-Attempts job next w k (true, v) h = Keeps-trans _ w v (next v).1 h (k v)
    after_flush-Attempts job next w k (false, v) h = h

    after_flush-Keeps :
        (next : Worker S → Bool × Worker S) (w : Worker S)
        → ((v : Worker S) → Keeps v (next v).1)
        → (x : Bool × Worker S) → Keeps w x.1
        → Keeps w (after_flush target config next x).1
    unfolding after_flush
    after_flush-Keeps next w k (true, v) h = Keeps-trans 0 w v (next v).1 h (k v)
    after_flush-Keeps next w k (false, v) h = h

    send_recovery-Attempts :
        (job : RecoveryJob) (w : Worker S) → Attempts job w (send_recovery target config job w)
    unfolding send_recovery
    send_recovery-Attempts job w =
        after_flush-Attempts job _ w
          (λ v.
            fill_sent-Attempts job (target.send_states job.fill v.sender) v
              (states job.fill v.sender))
          (flush target config w) (flush-Keeps w)

    states_sent-Keeps :
        (xs : List StateSample) (x : Option SendError × S) (w : Worker S)
        → count x.1 ≡ count w.sender
        → Keeps w (states_sent target config xs x w).1
    unfolding states_sent
    states_sent-Keeps xs (none, s) w h = (omega (arith, h), refl, refl)
    states_sent-Keeps xs (some x, s) w h = ground (arith, h)

    deliver_fresh-Keeps :
        (xs : List StateSample) (w : Worker S) → Keeps w (deliver_fresh target config xs w).1
    unfolding deliver_fresh
    deliver_fresh-Keeps [] w = (omega arith, refl, refl)
    deliver_fresh-Keeps (x ∷ xs) w =
        states_sent-Keeps (x ∷ xs) (target.send_states (x ∷ xs) w.sender) w
          (states (x ∷ xs) w.sender)

    deliver_states-Keeps : (w : Worker S) → Keeps w (deliver_states target config w).1
    unfolding deliver_states
    deliver_states-Keeps w = ground (
      arith,
      after_flush-Keeps
          (λ v. deliver_fresh target config (drop_stale v.published v.pending_states) v) w
          (λ v. deliver_fresh-Keeps (drop_stale v.published v.pending_states) v)
          (flush target config w) (flush-Keeps w),
    )

    record_states-Keeps :
        (now : ℕ) (xs : List StateSample) (w : Worker S)
        → Keeps w (record_states target config now xs w).1
    unfolding record_states
    record_states-Keeps now xs w = ground arith

    delivered_if-Keeps :
        (w : Worker S) (x : Bool × Worker S) → Keeps w x.1 → Keeps w (delivered_if target config x)
    delivered_if-Keeps w (true, v) h =
        Keeps-trans 0 w v (deliver_states target config v).1 h (deliver_states-Keeps v)
    delivered_if-Keeps w (false, v) h = h

    module _ (current : String → Option ServiceState) (now : ℕ) where
      heartbeat-Keeps : (w : Worker S) → Keeps w (heartbeat target config current now w)
      unfolding heartbeat
      heartbeat-Keeps w = delivered_if-Keeps w _ (record_states-Keeps now _ w)

      send_slot_sample-Keeps :
          (at : ℕ) (w : Worker S) → Keeps w (send_slot_sample target config current now at w).1
      unfolding send_slot_sample
      send_slot_sample-Keeps at w =
          let xs = slot_state_samples config.services current (some at) in
          let r = record_states target config now xs w in
          let k = record_states-Keeps now xs w in
          elim (Bool-cases (is_empty xs)) [
            | inl c ↦ rw c (omega arith, refl, refl)
            | inr c ↦ elim (Bool-cases r.0) [
              | inl b ↦
                  rw (c, b)
                    (Keeps-trans 0 w r.1 (deliver_states target config r.1).1 k
                      (deliver_states-Keeps r.1))
              | inr b ↦ rw (c, b) k
            ]
          ]

      try_slot_samples-Keeps :
          (ats : List ℕ) (w : Worker S) → Keeps w (try_slot_samples target config current now ats w)
      unfolding try_slot_samples
      try_slot_samples-Keeps [] w = (omega arith, refl, refl)
      try_slot_samples-Keeps (at ∷ ats) w =
          let r = send_slot_sample target config current now at w in
          let k = send_slot_sample-Keeps at w in
          elim (Bool-cases r.0) [
            | inl c ↦ rw c (
                Keeps-trans 0 w r.1 (try_slot_samples target config current now ats r.1) k
                  (try_slot_samples-Keeps ats r.1))
            | inr c ↦ rw c k
          ]

      Keeps-accounted : (v w : Worker S) → Keeps v w → accounted w ≡ accounted v
      Keeps-accounted v w h = ground (arith, h)

      try_recovery-accounted :
          (job : Option RecoveryJob) (w : Worker S)
          → w.pending_recovery ≡ job
          → accounted (try_recovery target config current now job w) ≡ accounted w
      try_recovery-accounted none w e = refl
      try_recovery-accounted (some job) w e =
          finished (send_recovery target config job w) (send_recovery-Attempts job w)
        where
          finished :
              (x : Bool × Worker S)
              → Attempts job w x
              → accounted (job_done target config current now x) ≡ accounted w
          finished (true, v) k = ground (arith, k, e)
          finished (false, v) k = Keeps-accounted w v k

      prepare-accounted :
          (w : Worker S) → accounted (prepare target config current now w) ≡ accounted w
      unfolding prepare
      prepare-accounted w =
          let v = try_recovery target config current now w.pending_recovery w in
          Keeps-accounted v (try_slot_samples target config current now v.edges.pending v)
            (try_slot_samples-Keeps v.edges.pending v)
          ∙ try_recovery-accounted w.pending_recovery w refl

      merge-events :
          (job : RecoveryJob) (old : Option RecoveryJob)
          → length (merge job old).events ≡ in_job old + length job.events
      unfolding merge
      merge-events job none = omega arith
      merge-events job (some old) = length-append old.events job.events

      take_command-accounted :
          (q : List Command) (w : Worker S)
          → w.queue ≡ q
          → accounted (take_command target config q w) ≡ accounted w
      take_command-accounted [] w e = refl
      take_command-accounted (transition x ∷ rest) w e =
          let w' = record w { queue = rest; batch = w.batch ++ x ∷ [] } in
          let taken : accounted w' ≡ accounted w =
            ground (arith, ap queued e, length-append w.batch (x ∷ [])) in
          elim (Bool-cases (leb config.batch_size (length w'.batch))) [
            | inl c ↦ rw c (Keeps-accounted w' (flush target config w').1 (flush-Keeps w') ∙ taken)
            | inr c ↦ rw c taken
          ]
      take_command-accounted (recovery_job job ∷ rest) w e =
          omega (arith, ap queued e, merge-events job w.pending_recovery)

      select-accounted :
          (input : Input) (w : Worker S)
          → accounted (select target config current now input w) ≡ accounted w
      unfolding select
      select-accounted from_queue w = take_command-accounted w.queue w refl
      select-accounted flush_tick w = Keeps-accounted w (flush target config w).1 (flush-Keeps w)
      select-accounted state_tick w =
          Keeps-accounted w (heartbeat target config current now w) (heartbeat-Keeps w)
      select-accounted (slot_timer fuel) w = refl
      select-accounted done w = Keeps-accounted w (flush target config w).1 (flush-Keeps w)

    enqueue-accounted :
        (c : Command) (w : Worker S)
        → accounted (enqueue c w).1 ≡ accounted w + (if (enqueue c w).0 then queued (c ∷ []) else 0)
    unfolding enqueue
    enqueue-accounted c w = ground (arith, queued-snoc w.queue c)

    enqueue_all-accounted :
        (cs : List Command) (w : Worker S)
        → accounted (enqueue_all cs w) ≡ accounted w + admitted cs w
    unfolding enqueue_all admitted
    enqueue_all-accounted [] w = omega arith
    enqueue_all-accounted (c ∷ cs) w =
        ground (arith, enqueue-accounted c w, enqueue_all-accounted cs (enqueue c w).1)

    -- A round adds the events of the commands that the queue takes in it.
    pub step-accounted :
        (r : Round) (w : Worker S)
        → accounted (step target config r w) ≡ accounted w + admitted_in target config r w
    unfolding step admitted_in
    step-accounted r w =
        let v = enqueue_all r.arrived w in
        let ready = prepare target config r.current r.now v in
        omega (
          arith,
          select-accounted r.current r.now r.input (enqueue_all r.waiting ready),
          enqueue_all-accounted r.waiting ready,
          prepare-accounted r.current r.now v,
          enqueue_all-accounted r.arrived w,
        )
