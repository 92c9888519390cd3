-- ===== src/Engine/Examples.antt =====
-- A life of one delayed service: stopped, started, answered; then a journal record and a reboot.
use systemd_transition_expor.Base.{
  ℕ, ◌+◌, ◌<◌, ◌≡◌, ◌≢◌, refl, String, ◌&&◌, List, [], ◌∷◌, arith, All, length,
}
use systemd_transition_expor.Base.Dict.{lookup, insert}
use systemd_transition_expor.Base.Sort.{place, sort_stable}
use systemd_transition_expor.Model.{AvailabilityState, up, down, sip, recovery, UnitSnapshot, Event}
use systemd_transition_expor.Engine.{
  Engine, new, member, state, state_or_zero, restore_state, replay, is_fresh, candidates, emit,
  systemd_event, from_snapshot, note_last, apply_known, apply, confirm_ready, ready_state,
  apply_recovery, reboot_one, apply_reboot, observed, named,
}
use systemd_transition_expor.Engine.Run.{
  Call, snapshot, ready, step, run, replay_all, Consecutive, run-Consecutive, restart_above_log,
}
use systemd_transition_expor.Engine.Dedup.{apply_twice, journal_then_snapshot}
use systemd_transition_expor.Engine.Readiness.{apply-delayed, AreNewer, apply-AreNewer}
use systemd_transition_expor.Engine.Reboot.{announces, up_now, apply_reboot-announces}
use systemd_transition_expor.Engine.Invariant.{IsConsistent, restore_all, lifetime-IsConsistent}

abbrev start : Engine
start = record { states = []; seq = 7; delay_up = "pcscf.service" ∷ [] }

abbrev seen : String → ℕ → ℕ → UnitSnapshot
seen active exit enter = record {
  service = "pcscf.service";
  active_state = active;
  sub_state = "running";
  active_enter_timestamp_us = enter;
  active_exit_timestamp_us = exit;
  active_enter_timestamp_monotonic_us = 1;
  active_exit_timestamp_monotonic_us = 2;
  boot_id = "b1";
  observed_at = 0;
}

abbrev restart_calls : List Call
restart_calls =
    snapshot (seen "active" 0 1000000)
    ∷ snapshot (seen "active" 5000000 6000000)
    ∷ ready "pcscf.service" 6500 sip
    ∷ ready "pcscf.service" 6600 sip
    ∷ snapshot (seen "inactive" 9000000 6000000)
    ∷ []

abbrev summary : List Event → List (ℕ × AvailabilityState × ℕ)
summary [] = []
summary (x ∷ xs) = (x.sequence, x.state, x.event_time_unix_ms) ∷ summary xs

-- Opens the engine's code for the tests.
opened : Unit {0}
unfolding run step restore_all replay_all apply apply_known state state_or_zero candidates is_fresh
    sort_stable place emit systemd_event from_snapshot note_last member confirm_ready ready_state
    apply_recovery apply_reboot reboot_one replay restore_state named new lookup insert observed
opened = tt

-- Down at the stop, up at the probe's first answer only, down at the next stop.
restart_runs :
    summary (run start restart_calls).1 ≡ (8, down, 5000) ∷ (9, up, 6500) ∷ (10, down, 9000) ∷ []
unfolding opened
restart_runs = refl

run-Consecutive_example :
    Consecutive 7 (run start restart_calls).1
    × ((run start restart_calls).0.seq ≡ 7 + length (run start restart_calls).1)
unfolding opened
run-Consecutive_example = run-Consecutive start restart_calls (omega arith)

abbrev waiting : Engine
waiting =
    (run start
      (snapshot (seen "active" 0 1000000) ∷ snapshot (seen "active" 5000000 6000000) ∷ [])).0

abbrev past : List Event
past = (run start restart_calls).1

restart_above_log_example :
    All
      (λ v.
        All
          (λ x. v.sequence < x.sequence)
          (run (replay_all start past) (
            snapshot (seen "active" 9000000 6000000)
            ∷ snapshot (seen "inactive" 12000000 6000000)
            ∷ [])).1)
      past
unfolding opened
restart_above_log_example =
    restart_above_log start past
      (snapshot (seen "active" 9000000 6000000) ∷ snapshot (seen "inactive" 12000000 6000000) ∷ [])
      (omega arith)

apply_twice_example :
    apply (apply waiting (seen "inactive" 9000000 6000000)).0 (seen "inactive" 9000000 6000000)
    ≡ ((apply waiting (seen "inactive" 9000000 6000000)).0, [])
apply_twice_example = apply_twice waiting (seen "inactive" 9000000 6000000)

abbrev journal_stop : Event
journal_stop = record {
  sequence = 0;
  service = "pcscf.service";
  state = down;
  event_time_unix_ms = 9000;
  event_time_monotonic_us = 0;
  boot_id = "b1";
  source = recovery;
  systemd_active_state = "down";
  systemd_sub_state = "";
}

journal_then_snapshot_example :
    (apply (apply_recovery waiting journal_stop).0 (seen "inactive" 9000000 6000000)).1 ≡ []
journal_then_snapshot_example =
    journal_then_snapshot waiting journal_stop (seen "inactive" 9000000 6000000) refl (omega arith)
      (omega arith)

apply-delayed_example : All (λ x. x.state ≢ up) (apply waiting (seen "active" 9000000 10000000)).1
unfolding opened
apply-delayed_example = apply-delayed waiting (seen "active" 9000000 10000000) refl

apply-AreNewer_example :
    AreNewer
      (state_or_zero waiting "pcscf.service").last_event_time_unix_ms
      (apply waiting (seen "active" 9000000 10000000)).1
apply-AreNewer_example = apply-AreNewer waiting (seen "active" 9000000 10000000)

abbrev healthy : Engine
healthy = (run waiting (ready "pcscf.service" 6500 sip ∷ [])).0

apply_reboot-announces_example :
    announces "pcscf.service" (apply_reboot healthy ("pcscf.service" ∷ []) "b2" 20000).1
    ≡ (member "pcscf.service" ("pcscf.service" ∷ []) && up_now healthy "pcscf.service")
apply_reboot-announces_example =
    apply_reboot-announces healthy ("pcscf.service" ∷ []) "b2" 20000 "pcscf.service"

lifetime-IsConsistent_example :
    IsConsistent
      (run
        (replay_all (restore_all new (state_or_zero waiting "pcscf.service" ∷ [])) past)
        restart_calls).0
unfolding opened
lifetime-IsConsistent_example =
    lifetime-IsConsistent (state_or_zero waiting "pcscf.service" ∷ []) past restart_calls
      ((λ w. refl), tt)
