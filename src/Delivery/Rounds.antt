-- ===== src/Delivery/Rounds.antt =====
-- internal/delivery/worker.go: the availability samples and one round of the loop of `Run`.
use systemd_transition_expor.Base.{
  ℕ, String, Bool, true, false, Option, none, some, List, [], ◌∷◌, ◌++◌, leb, if◌then◌else◌, length,
}
use systemd_transition_expor.Base.Text.{is_empty}
use systemd_transition_expor.Model.{ServiceState}
use systemd_transition_expor.Delivery.Samples.{slot_state_samples, earlier_time}
use systemd_transition_expor.Delivery.Slots.{Edges, fire, fire_past}
use systemd_transition_expor.Delivery.Worker.{
  Target, RecoveryJob, Config, Command, transition, recovery_job, Worker, merge, Input, from_queue,
  flush_tick, state_tick, done, slot_timer, flush, send_recovery, deliver_states, record_states,
  delivered_if, enqueue_all,
}

-- What one round of the loop meets: the commands that EnqueueEvent and EnqueueRecovery are called
-- with before the round and before its select, the engine's states, the time and the case.
pub record Round : Type 0 where
  pub arrived : List Command
  pub waiting : List Command
  pub current : String → Option ServiceState
  pub now : ℕ
  pub input : Input

module _ {S : Type 0} (target : Target S) (config : Config) where
  -- The engine's state of a service, and the time of the round.
  module _ (current : String → Option ServiceState) (now : ℕ) where
    unfoldable pub heartbeat : Worker S → Worker S
    heartbeat w =
        delivered_if target config (
          record_states target config now (slot_state_samples config.services current (some now)) w)

    unfoldable pub send_slot_sample : ℕ → Worker S → Bool × Worker S
    send_slot_sample at w =
        let samples = slot_state_samples config.services current (some at) in
        let (recorded, w') = record_states target config now samples w in
        if is_empty samples
        then (true, w)
        else if recorded
        then (true, (deliver_states target config w').1)
        else (false, w')

    -- Over the edges that wait; `rest` stays if one is not recorded.
    unfoldable pub try_slot_samples : List ℕ → Worker S → Worker S
    try_slot_samples [] w = record w { edges = record w.edges { pending = [] } }
    try_slot_samples (at ∷ rest) w =
        let (sent, w') = send_slot_sample at w in
        let later = try_slot_samples rest w' in
        if sent then later else record w' { edges = record w'.edges { pending = at ∷ rest } }

    abbrev pub job_done : Bool × Worker S → Worker S
    job_done (true, w) = record w { pending_recovery = none }
    job_done (false, w) = w

    abbrev pub try_recovery : Option RecoveryJob → Worker S → Worker S
    try_recovery none w = w
    try_recovery (some job) w = job_done (send_recovery target config job w)

    -- The head of the loop, before the select.
    unfoldable pub prepare : Worker S → Worker S
    prepare w = let w' = try_recovery w.pending_recovery w in try_slot_samples w'.edges.pending w'

  abbrev pub take_command : List Command → Worker S → Worker S
  take_command [] w = w
  take_command (transition e ∷ rest) w =
      let w' = record w { queue = rest; batch = w.batch ++ e ∷ [] } in
      let full = (flush target config w').1 in
      if leb config.batch_size (length w'.batch) then full else w'
  take_command (recovery_job job ∷ rest) w = record w {
    queue = rest;
    pending_recovery = some (merge job w.pending_recovery);
  }

  abbrev pub on_slot_timer : ℕ → ℕ → Edges → Edges
  on_slot_timer fuel now e =
      let t = earlier_time e.next_opening e.next_closing in
      fire_past config.offset config.recovery_window fuel now
        (fire config.offset config.recovery_window t e)

  unfoldable pub select : (String → Option ServiceState) → ℕ → Input → Worker S → Worker S
  select current now from_queue w = take_command w.queue w
  select current now flush_tick w = (flush target config w).1
  select current now state_tick w = heartbeat current now w
  select current now (slot_timer fuel) w = record w { edges = on_slot_timer fuel now w.edges }
  select current now done w = (flush target config w).1

  -- The round, with what comes over the channel before it and while its select waits.
  unfoldable pub step : Round → Worker S → Worker S
  step r w =
      let ready = prepare r.current r.now (enqueue_all r.arrived w) in
      select r.current r.now r.input (enqueue_all r.waiting ready)
