-- ===== src/Systemd/Examples.antt =====
-- The units of one service, over a connection that is lost and comes back.
use systemd_transition_expor.Base.{ℕ, ◌≡◌, refl, true, false, none, some, [], ◌∷◌}
use systemd_transition_expor.Base.Dict.{Dict, lookup, insert}
use systemd_transition_expor.Model.{UnitSnapshot}
use systemd_transition_expor.Systemd.Snapshot.{
  Variant, text_value, uint64_value, negative_int64, uint32_value, other_value,
  snapshot_from_properties, interesting, update, snapshot-update, as_uint64, read,
}
use systemd_transition_expor.Systemd.Monitor.{
  error_call, snapshot_call, state_call, recovery_call, connection_closed, Answers, run_monitor,
  by_service,
}
use systemd_transition_expor.Systemd.Resilient.{
  Attempt, start_state, again, attempt, run_resilient, load_units, first_snapshots,
}
use systemd_transition_expor.Systemd.Phases.{Ends, run_resilient-Ends}
use systemd_transition_expor.Systemd.Automaton.{gap}

abbrev properties : Dict Variant
properties =
    ("ActiveState", text_value "active")
    ∷ ("SubState", text_value "running")
    ∷ ("ActiveEnterTimestamp", uint64_value 7)
    ∷ ("ActiveExitTimestamp", uint32_value 5)
    ∷ ("ActiveEnterTimestampMonotonic", uint64_value 3)
    ∷ ("ActiveExitTimestampMonotonic", negative_int64 1)
    ∷ []

abbrev taken : UnitSnapshot
taken = record {
  service = "a";
  active_state = "active";
  sub_state = "running";
  active_enter_timestamp_us = 7;
  active_exit_timestamp_us = 5;
  active_enter_timestamp_monotonic_us = 3;
  active_exit_timestamp_monotonic_us = 0;
  boot_id = "b";
  observed_at = 9;
}

properties_read : snapshot_from_properties "a" "b" 9 properties ≡ read taken
unfolding snapshot_from_properties lookup as_uint64
properties_read = refl

snapshot-update_example :
    snapshot_from_properties "a" "b" 9 (update properties (("MemoryCurrent", other_value) ∷ []))
    ≡ snapshot_from_properties "a" "b" 9 properties
unfolding interesting
snapshot-update_example =
    snapshot-update "a" "b" 9 properties (("MemoryCurrent", other_value) ∷ []) refl

abbrev answers : Answers
answers = record { snapshot = λ s. some taken; handled = λ s. true }

abbrev connecting : ℕ → ℕ → Attempt
connecting at lost_at = record {
  cancelled_waiting = false;
  connected = true;
  cancelled_connecting = false;
  load_unit = λ s. some "/a";
  subscribed = true;
  boot_id = some "b";
  until = at;
  recovered = true;
  snapshot = λ b s. some taken;
  handled = λ s. true;
  connected_at = at;
  wakes = (connection_closed, answers) ∷ [];
  cancelled_running = false;
  lost_at = lost_at;
}

run_resilient-Ends_example :
    Ends
      (run_resilient ("a" ∷ []) (connecting 10 20 ∷ connecting 30 40 ∷ []) start_state)
      (gap none)
run_resilient-Ends_example =
    run_resilient-Ends ("a" ∷ []) (connecting 10 20 ∷ connecting 30 40 ∷ []) start_state

trace : run_resilient ("a" ∷ []) (connecting 10 20 ∷ connecting 30 40 ∷ []) start_state ≡ (
  snapshot_call taken
      ∷ state_call true 10
      ∷ state_call false 20
      ∷ error_call
      ∷ recovery_call 20 30
      ∷ snapshot_call taken
      ∷ state_call true 30
      ∷ state_call false 40
      ∷ error_call
      ∷ [],
  again record { connected_once = true; disconnected_at = some 40 },
)
unfolding run_resilient attempt load_units first_snapshots by_service run_monitor insert
trace = refl

-- Two names of one unit: the first has no snapshot.
aliases :
    first_snapshots (connecting 10 20) "b" (("/a", "b") ∷ []) ("a" ∷ "b" ∷ [])
    ≡ first_snapshots (connecting 10 20) "b" (("/a", "b") ∷ []) ("b" ∷ [])
unfolding first_snapshots by_service
aliases = refl
