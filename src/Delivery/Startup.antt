-- ===== src/Delivery/Startup.antt =====
-- internal/delivery/worker.go: `startup` and what `Run` does before its loop.
use systemd_transition_expor.Base.{
  ℕ, Option, none, some, List, [], ◌∷◌, ◌++◌, ltb, if◌then◌else◌, filter_by,
}
use systemd_transition_expor.Model.{Event}
use systemd_transition_expor.RemoteWrite.{SendError, is_permanent}
use systemd_transition_expor.Recovery.Slot.{
  unix_milli, slot_end_lead, due_slot_opening, due_slot_closing, next_slot_opening,
  next_slot_closing,
}
use systemd_transition_expor.Delivery.Samples.{buffer_states}
use systemd_transition_expor.Delivery.Slots.{Edges}
use systemd_transition_expor.Delivery.Worker.{Target, Config, Worker, no_edges, mark_degraded}

module _ {S : Type 0} (target : Target S) (config : Config) where
  -- The edges at the start of `Run`.
  abbrev pub due_edges : ℕ → List ℕ
  due_edges now =
      listed (due_slot_opening config.offset now config.recovery_window)
      ++ listed (due_slot_closing config.offset now config.recovery_window)
    where
      listed : Option ℕ → List ℕ
      listed none = []
      listed (some t) = t ∷ []

  unfoldable pub first_edges : ℕ → Edges
  first_edges now =
      if ltb slot_end_lead config.recovery_window
      then record {
        pending = due_edges now;
        next_opening = next_slot_opening config.offset now config.recovery_window;
        next_closing = next_slot_closing config.offset now config.recovery_window;
      }
      else no_edges

  -- The events before the slot, and the others, in their order.
  unfoldable pub before_slot : Option ℕ → List Event → List Event
  before_slot none es = []
  before_slot (some slot) [] = []
  before_slot (some slot) (e ∷ es) =
      let rest = before_slot (some slot) es in
      if ltb e.event_time_unix_ms (unix_milli slot) then e ∷ rest else []

  unfoldable pub from_slot : Option ℕ → List Event → List Event
  from_slot none es = es
  from_slot (some slot) [] = []
  from_slot (some slot) (e ∷ es) =
      let rest = from_slot (some slot) es in
      if ltb e.event_time_unix_ms (unix_milli slot) then rest else e ∷ es

  unfoldable pub rest_sent : List Event → Option SendError × S → Worker S → Worker S
  unfolding mark_degraded
  rest_sent events (none, s) w = record w { sender = s }
  rest_sent events (some x, s) w = record (mark_degraded w) { sender = s; batch = events }

  unfoldable pub startup_fill_sent : ℕ → List Event → Option SendError × S → Worker S → Worker S
  unfolding mark_degraded
  startup_fill_sent now events (none, s) w =
      rest_sent events (target.send_events events s) (record w { sender = s })
  startup_fill_sent now events (some x, s) w =
      let w' = record w { sender = s } in
      let w'' = if target.ended s then w' else mark_degraded w' in
      let kept = record w'' {
        pending_states =
            buffer_states config.offset config.recovery_window now w''.pending_states
              config.startup_fill;
      } in
      rest_sent events (target.send_events events s) (if is_permanent x then w'' else kept)

  unfoldable pub old_sent : ℕ → List Event → List Event → Option SendError × S → Worker S → Worker S
  unfolding mark_degraded
  old_sent now pending events (some x, s) w = record (mark_degraded w) {
    sender = s;
    batch = pending;
  }
  old_sent now pending events (none, s) w =
      startup_fill_sent now events (target.send_states config.startup_fill s)
        (record w { sender = s })

  unfoldable pub startup : ℕ → Worker S → Worker S
  startup now w =
      let pending =
        filter_by (λ e. ltb (target.last_sent w.sender) e.sequence) config.startup_events in
      old_sent now pending (from_slot config.startup_slot pending)
        (target.send_events (before_slot config.startup_slot pending) w.sender) w

  -- `Run` up to its loop.
  unfoldable pub start : ℕ → Worker S → Worker S
  start now w = record (startup now w) { edges = first_edges now }
