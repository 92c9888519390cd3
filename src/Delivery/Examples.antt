-- ===== src/Delivery/Examples.antt =====
-- A run of two rounds with a target that refuses every event, and a flush to one that recovers.
use systemd_transition_expor.Base.{
  ℕ, ◌+◌, ◌*◌, ◌≡◌, String, false, Option, none, some, List, [], ◌∷◌, arith, All, length,
}
use systemd_transition_expor.Model.{up, systemd, Event, StateSample, ServiceState, zero_state}
use systemd_transition_expor.RemoteWrite.{SendError, transport}
use systemd_transition_expor.Recovery.Slot.{minute_ns}
use systemd_transition_expor.Delivery.Slots.{fire_past}
use systemd_transition_expor.Delivery.Edges.{fire_past-ends, After}
use systemd_transition_expor.Delivery.Worker.{
  Target, Config, Worker, transition, recovery_job, new, from_queue,
}
use systemd_transition_expor.Delivery.Bounds.{IsBounded}
use systemd_transition_expor.Delivery.Outcomes.{queued, in_job}
use systemd_transition_expor.Delivery.Rounds.{Round}
use systemd_transition_expor.Delivery.Startup.{start}
use systemd_transition_expor.Delivery.Lifetime.{run, run-IsBounded}
use systemd_transition_expor.Delivery.Ledger.{counting, unsent, admitted_over, run-accounted}
use systemd_transition_expor.Delivery.Worker.{state_tick}
use systemd_transition_expor.Base.{◌<◌, true, refl, if◌then◌else◌, ◌==◌}
use systemd_transition_expor.Base.Sort.{sort_stable}
use systemd_transition_expor.RemoteWrite.{
  World, Sender, status, send, send_batches, send_batch, send_series, attempt, settle, judge, asked,
  succeeded, note_retry, note_failure, saved_batch, save_checkpoint, checked, then_rest,
  pending_events,
}
use systemd_transition_expor.RemoteWrite.Delivery.{acknowledged}
use systemd_transition_expor.Delivery.Worker.{flush, flushed, remote_target}
use systemd_transition_expor.Delivery.Acknowledged.{flush_acknowledges}

-- It takes states, and no event.
abbrev refusing : Target ℕ
refusing = record {
  send_events = send;
  send_states = λ xs s. (none, s + 1);
  last_sent = λ s. 0;
  ended = λ s. false;
}
  where
    send : List Event → ℕ → Option SendError × ℕ
    send [] s = (none, s)
    send (e ∷ es) s = (some transport, s + 1)

abbrev config : Config
config = record {
  batch_size = 1;
  recovery_window = 15 * minute_ns;
  offset = 0;
  services = "sip.service" ∷ [];
  startup_events = [];
  startup_fill = [];
  startup_slot = none;
}

abbrev sample : ℕ → StateSample
sample t = record { service = "sip.service"; state = up; timestamp_unix_ms = t }

abbrev event : Event
event = record {
  sequence = 1;
  service = "sip.service";
  state = up;
  event_time_unix_ms = 1000;
  event_time_monotonic_us = 0;
  boot_id = "b";
  source = systemd;
  systemd_active_state = "active";
  systemd_sub_state = "running";
}

abbrev current : String → Option ServiceState
current s = some (zero_state)

-- A transition comes before the first round, a recovery while its select waits.
abbrev two_rounds : List Round
two_rounds =
    record {
      arrived = transition event ∷ [];
      waiting = recovery_job (record { fill = []; events = event ∷ event ∷ [] }) ∷ [];
      current = current;
      now = 20 * minute_ns;
      input = from_queue;
    }
    ∷ record {
      arrived = [];
      waiting = [];
      current = current;
      now = 21 * minute_ns;
      input = state_tick;
    }
    ∷ []

run-IsBounded_example : IsBounded (run refusing config (20 * minute_ns) two_rounds 0)
run-IsBounded_example = run-IsBounded refusing config (20 * minute_ns) two_rounds 0

run-accounted_example :
    let w = run (counting refusing) config (20 * minute_ns) two_rounds (0, 0) in
    let first = start (counting refusing) config (20 * minute_ns) (new (0, 0)) in
    length w.batch + queued w.queue + in_job w.pending_recovery + w.dropped + w.sender.1
    ≡ length (unsent refusing config 0) + admitted_over refusing config two_rounds first
run-accounted_example = run-accounted refusing config (20 * minute_ns) two_rounds 0

-- A receiver that answers the first request by 500 and accepts the later ones, and a sound disk.
abbrev recovering : World
recovering = record {
  net = λ n. if n == 0 then status 500 else status 204;
  encodes = λ r. true;
  makes = λ n. true;
  ends = λ n. false;
  disk = λ n. record {
    mkdir = false;
    open_tmp = false;
    write = false;
    sync = false;
    close = false;
    rename = false;
    dir_open = false;
    dir_sync = false;
    dir_close = false;
  };
}

abbrev sender : Sender
sender = record {
  batch_size = 100;
  last_sent = 0;
  stats = record { successful_requests = 0; failed_requests = 0; retries = 0; sent_samples = 0 };
  checkpoint = none;
  accepted = [];
  requests = 0;
  saves = 0;
}

abbrev full : Worker Sender
full = record {
  sender = sender;
  queue = [];
  published = [];
  pending_states = [];
  batch = event ∷ [];
  degraded = false;
  pending_recovery = none;
  edges = record { pending = []; next_opening = none; next_closing = none };
  dropped = 0;
}

flushes : (flush (remote_target recovering 1000) config full).0 ≡ true
unfolding flush flushed send send_batches send_batch send_series attempt settle judge asked
    succeeded note_retry note_failure saved_batch save_checkpoint checked then_rest pending_events
    sort_stable
flushes = refl

drops_none : (flush (remote_target recovering 1000) config full).1.dropped ≡ 0
unfolding flush flushed send send_batches send_batch send_series attempt settle judge asked
    succeeded note_retry note_failure saved_batch save_checkpoint checked then_rest pending_events
    sort_stable
drops_none = refl

flush_acknowledges_example :
    All
      (λ e.
        0 < e.sequence
        → acknowledged (flush (remote_target recovering 1000) config full).1.sender.accepted e
          ≡ true)
      (event ∷ [])
flush_acknowledges_example =
    flush_acknowledges recovering 1000 config 99 full refl (omega arith) flushes drops_none

-- Edges of two slots ago: the opening and the closing are moved on until both are to come.
fire_past-ends_example : After 6 (
    fire_past 0
      (15 * minute_ns)
      9
      6
      (record { pending = []; next_opening = some 3; next_closing = some 4 }))
fire_past-ends_example = fire_past-ends 0 15 9 6 3 4 [] (omega arith) (omega arith)
