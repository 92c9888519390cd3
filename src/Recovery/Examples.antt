-- ===== src/Recovery/Examples.antt =====
-- A quarter of an hour as the slot, one recovered start and one record of the journal.
use systemd_transition_expor.Base.{ℕ, ◌+◌, ◌*◌, ◌≡◌, refl, true, none, some, [], ◌∷◌, arith, All}
use systemd_transition_expor.Base.Text.{codes, trim_space}
use systemd_transition_expor.Model.{up, down, recovery, Event}
use systemd_transition_expor.Recovery.Slot.{
  minute_ns, ms_ns, unix_milli, slot_end_fraction, slot_start,
}
use systemd_transition_expor.Recovery.Fill.{
  timeline, tick_fuel, state_at, has_sample, build_state_fill,
}
use systemd_transition_expor.Base.Decimal.{number, digits}
use systemd_transition_expor.Recovery.Journal.{JournalRecord, recover_lines, parse_timestamp_us}
use systemd_transition_expor.Recovery.Timed.{IsTimed, InWindow, recover_lines-InWindow}
use systemd_transition_expor.Recovery.States.{service_fill-ticks}
use systemd_transition_expor.Recovery.Window.{Built, Inside, build_state_fill-Inside}

-- 20 minutes after the epoch, with a zone half an hour ahead.
abbrev now : ℕ
now = 20 * minute_ns

abbrev half_hour : ℕ
half_hour = 30 * minute_ns

test_slot_start : slot_start half_hour now (15 * minute_ns) ≡ 15 * minute_ns
unfolding slot_start
test_slot_start = refl

-- A window of 7.5 minutes divides the hour, but is not of whole minutes: after 7:45 the slot is
-- still that of the full hour, and it has ended.
test_half_minutes : slot_start 0 (465 * 1000 * ms_ns) (450 * 1000 * ms_ns) ≡ 0
unfolding slot_start
test_half_minutes = refl

-- The opening after the one at 7:30.005 is again the one at 7:30.005.
test_stuck :
    slot_start 0 (450 * 1000 * ms_ns + slot_end_fraction) (450 * 1000 * ms_ns) + 450 * 1000 * ms_ns
    ≡ 450 * 1000 * ms_ns
unfolding slot_start
test_stuck = refl

abbrev started : Event
started = record {
  sequence = 0;
  service = "sip.service";
  state = up;
  event_time_unix_ms = 125000;
  event_time_monotonic_us = 0;
  boot_id = "b";
  source = recovery;
  systemd_active_state = "up";
  systemd_sub_state = "";
}

service_fill-ticks_example :
    has_sample "sip.service"
      (state_at down (started ∷ []) (unix_milli (0 + 3 * minute_ns)))
      (unix_milli (0 + 3 * minute_ns))
      (timeline (tick_fuel minute_ns 0 now) "sip.service" minute_ns now 0 down (started ∷ []))
    ≡ true
service_fill-ticks_example =
    service_fill-ticks "sip.service" minute_ns 0 now 3 down (started ∷ []) (omega arith)
      (omega arith)

build_state_fill-Inside_example : Built (Inside (unix_milli 0) (unix_milli now)) (
    build_state_fill
      (λ service t. some none)
      0
      now
      (started ∷ [])
      minute_ns
      []
      ("sip.service" ∷ "dns.service" ∷ []))
build_state_fill-Inside_example =
    build_state_fill-Inside (λ service t. some none) 0 now (started ∷ []) minute_ns []
      ("sip.service" ∷ "dns.service" ∷ [])

abbrev line : JournalRecord
line = record {
  message = codes "Started sip.service";
  message_id = codes " 39F53479d3a045ac8e11786248231fbf";
  unit = "sip.service";
  boot_id = "b";
  rtus = codes "125000000";
}

timed : All IsTimed (none ∷ some line ∷ [])
unfolding parse_timestamp_us trim_space number digits
timed = (tt, (omega arith, tt))

recover_lines-InWindow_example :
    All
      (InWindow "sip.service" 0 now)
      (recover_lines (λ t. "b") "sip.service" 0 now (none ∷ some line ∷ []))
recover_lines-InWindow_example =
    recover_lines-InWindow (λ t. "b") "sip.service" 0 now (none ∷ some line ∷ []) timed
