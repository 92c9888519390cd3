-- ===== src/Engine.antt =====
-- internal/engine/engine.go: the transition detector. Every method holds the engine's mutex from
-- its first line to its return, so a method is one step from engine to engine.
pub mod Lookup
pub mod Numbering
pub mod Run
pub mod Dedup
pub mod Readiness
pub mod Reboot
pub mod Startup
pub mod Invariant
mod Examples
use systemd_transition_expor.Base.{
  ℕ, ◌+◌, ◌/◌, String, Bool, true, false, not, ◌&&◌, ◌||◌, Option, none, some, List, [], ◌∷◌, ◌++◌,
  ltb, leb, u64_inc, if◌then◌else◌, str_eq, is_none,
}
use systemd_transition_expor.Base.Dict.{Dict, lookup, insert}
use systemd_transition_expor.Base.Sort.{place, sort_stable}
use systemd_transition_expor.Model.{
  AvailabilityState, unknown, up, down, EventSource, systemd, host_reboot, UnitSnapshot, Event,
  ServiceState, zero_state, is_up, is_down,
}

-- `delayUp` is a set of names.
pub record Engine : Type 0 where
  pub states : Dict ServiceState
  pub seq : ℕ
  pub delay_up : List String

unfoldable pub new : Engine
new = record { states = []; seq = 0; delay_up = [] }

-- `_, ok := set[name]`
unfoldable pub member : String → List String → Bool
member k [] = false
member k (j ∷ names) = str_eq j k || member k names

unfoldable pub delay_up_until_ready : Engine → List String → Engine
delay_up_until_ready e services = record e { delay_up = services }

unfoldable pub state : Engine → String → Option ServiceState
state e service = lookup service e.states

-- `states[service]` read as a value: Go's zero value where the key is missing.
unfoldable pub state_or_zero : Engine → String → ServiceState
state_or_zero e service = elim (lookup service e.states) [ none ↦ zero_state | some s ↦ s ]

unfoldable pub restore_state : Engine → ServiceState → Engine
restore_state e s = if str_eq s.service "" then e else record e {
  states = insert s.service s e.states;
  seq = if ltb e.seq s.last_sequence then s.last_sequence else e.seq;
}

unfoldable pub named : ServiceState → String → ServiceState
named s service = if str_eq s.service "" then record s { service = service } else s

unfoldable pub replay : Engine → Event → Engine
replay e event =
    let e' = record e { seq = if ltb e.seq event.sequence then event.sequence else e.seq } in
    let s = named (state_or_zero e event.service) event.service in
    if ltb event.event_time_unix_ms s.last_event_time_unix_ms then e' else record e' {
      states =
          insert event.service
            (record s {
              availability = event.state;
              awaiting_sip = false;
              boot_id = event.boot_id;
              last_event_time_unix_ms = event.event_time_unix_ms;
              last_event_mono_us = event.event_time_monotonic_us;
              last_sequence = event.sequence;
            })
            e.states;
    }

-- `availability`
unfoldable pub observed : String → AvailabilityState
observed active_state = if str_eq active_state "active" then up else down

pub record Candidate : Type 0 where
  pub state : AvailabilityState
  pub unix_us : ℕ
  pub mono_us : ℕ

-- An instant in microseconds counts only if it is newer than the one last seen, and its
-- milliseconds are newer than the last event. `int64(us/1000)` is exact: us/1000 < 2^63.
unfoldable pub is_fresh : ℕ → ℕ → ℕ → Bool
is_fresh us seen_us last_ms = ltb seen_us us && ltb last_ms (us / 1000)

unfoldable pub candidates : UnitSnapshot → ServiceState → List Candidate
candidates s old =
    let exits : List Candidate =
      if is_fresh s.active_exit_timestamp_us old.last_active_exit_timestamp_us
        old.last_event_time_unix_ms
      then record {
        state = down;
        unix_us = s.active_exit_timestamp_us;
        mono_us = s.active_exit_timestamp_monotonic_us;
      }
        ∷ []
      else [] in
    let enters : List Candidate =
      if is_fresh s.active_enter_timestamp_us old.last_active_enter_timestamp_us
        old.last_event_time_unix_ms
      then record {
        state = up;
        unix_us = s.active_enter_timestamp_us;
        mono_us = s.active_enter_timestamp_monotonic_us;
      }
        ∷ []
      else [] in
    sort_stable (λ a b. ltb a.unix_us b.unix_us) (exits ++ enters)

pub record Emitted : Type 0 where
  pub events : List Event
  pub seq : ℕ
  pub pending : Bool

unfoldable pub systemd_event : UnitSnapshot → Candidate → ℕ → Event
systemd_event s c seq = record {
  sequence = seq;
  service = s.service;
  state = c.state;
  event_time_unix_ms = c.unix_us / 1000;
  event_time_monotonic_us = c.mono_us;
  boot_id = s.boot_id;
  source = systemd;
  systemd_active_state = s.active_state;
  systemd_sub_state = s.sub_state;
}

-- The loop of `Apply` over the candidates, from a sequence number, `current` and `pending`.
unfoldable pub emit : UnitSnapshot → Bool → List Candidate → ℕ → AvailabilityState → Bool → Emitted
emit s delay_up [] seq current pending = record { events = []; seq = seq; pending = pending }
emit s delay_up (c ∷ cs) seq current pending =
    let withheld = emit s delay_up cs seq current true in
    let stopped_early = emit s delay_up cs seq current false in
    let pending' = if is_down c.state then false else pending in
    let rest = emit s delay_up cs (u64_inc seq) c.state pending' in
    if is_up c.state && delay_up
    then withheld
    else if is_down c.state && (pending && is_down current)
    then stopped_early
    else record rest { events = systemd_event s c (u64_inc seq) ∷ rest.events }

-- The state that a snapshot describes, with the last event of `old`.
unfoldable pub from_snapshot : UnitSnapshot → ServiceState → Bool → ServiceState
unfolding observed
from_snapshot s old pending = record {
  service = s.service;
  availability = if pending then down else observed s.active_state;
  active_state = s.active_state;
  sub_state = s.sub_state;
  boot_id = s.boot_id;
  last_active_enter_timestamp_us = s.active_enter_timestamp_us;
  last_active_exit_timestamp_us = s.active_exit_timestamp_us;
  last_active_enter_monotonic_us = s.active_enter_timestamp_monotonic_us;
  last_active_exit_monotonic_us = s.active_exit_timestamp_monotonic_us;
  last_event_time_unix_ms = old.last_event_time_unix_ms;
  last_event_mono_us = old.last_event_mono_us;
  last_sequence = old.last_sequence;
  awaiting_sip = pending;
}

-- `events[len(events)-1]` is entered into the state, if there is one.
unfoldable pub note_last : List Event → ServiceState → ServiceState
note_last [] s = s
note_last (event ∷ events) s = note_last events (record s {
  last_event_time_unix_ms = event.event_time_unix_ms;
  last_event_mono_us = event.event_time_monotonic_us;
  last_sequence = event.sequence;
})

-- `Apply` once the state of the same boot is at hand.
unfoldable pub apply_known : Engine → UnitSnapshot → ServiceState → Engine × List Event
apply_known e s old =
    let r =
      emit s (member s.service e.delay_up) (candidates s old) e.seq old.availability
        old.awaiting_sip in
    (
      record e {
        states = insert s.service (note_last r.events (from_snapshot s old r.pending)) e.states;
        seq = r.seq;
      },
      r.events,
    )

unfoldable pub apply : Engine → UnitSnapshot → Engine × List Event
apply e s =
    let old = state_or_zero e s.service in
    if is_none (lookup s.service e.states) || not (str_eq old.boot_id s.boot_id)
    then (record e { states = insert s.service (from_snapshot s old false) e.states }, [])
    else apply_known e s old

-- `at` is `at.UnixMilli()`. Times have no bound here: the successor of the greatest int64 is a
-- number of its own. The result `none` is `(model.Event{}, false)`.
unfoldable pub ready_event : Engine → ServiceState → String → ℕ → EventSource → Event
ready_event e s service at source = record {
  sequence = u64_inc e.seq;
  service = service;
  state = up;
  event_time_unix_ms =
      if leb at s.last_event_time_unix_ms then s.last_event_time_unix_ms + 1 else at;
  event_time_monotonic_us = 0;
  boot_id = s.boot_id;
  source = source;
  systemd_active_state = s.active_state;
  systemd_sub_state = s.sub_state;
}

unfoldable pub ready_state : ServiceState → Event → ServiceState
ready_state s event = record s {
  awaiting_sip = false;
  availability = up;
  last_event_time_unix_ms = event.event_time_unix_ms;
  last_sequence = event.sequence;
}

unfoldable pub confirm_ready : Engine → String → ℕ → EventSource → Engine × Option Event
unfolding ready_event
confirm_ready e service at source =
    let s = state_or_zero e service in
    let event = ready_event e s service at source in
    if is_none (lookup service e.states) || not s.awaiting_sip then (e, none) else (
      record e { states = insert service (ready_state s event) e.states; seq = event.sequence },
      some event,
    )

unfoldable pub apply_recovery : Engine → Event → Engine × List Event
apply_recovery e event =
    let s = state_or_zero e event.service in
    let event' = record event { sequence = u64_inc e.seq } in
    if not (str_eq s.service "") && leb event.event_time_unix_ms s.last_event_time_unix_ms
    then (e, [])
    else (
      record e {
        seq = event'.sequence;
        states =
            insert event.service
              (record s {
                service = event.service;
                availability = event.state;
                awaiting_sip = false;
                boot_id = event.boot_id;
                last_event_time_unix_ms = event.event_time_unix_ms;
                last_sequence = event'.sequence;
              })
              e.states;
      },
      event' ∷ [],
    )

-- Every entry is given the boot identifier; the order of Go's `range` makes no difference here.
unfoldable pub with_boot : String → Dict ServiceState → Dict ServiceState
with_boot boot_id [] = []
with_boot boot_id ((k, s) ∷ m) = (k, record s { boot_id = boot_id }) ∷ with_boot boot_id m

unfoldable pub adopt_boot_id : Engine → String → Engine
unfolding with_boot
adopt_boot_id e boot_id = record e { states = with_boot boot_id e.states }

unfoldable pub reboot_event : Engine → String → String → ℕ → Event
reboot_event e service boot_id event_time = record {
  sequence = u64_inc e.seq;
  service = service;
  state = down;
  event_time_unix_ms = event_time;
  event_time_monotonic_us = 0;
  boot_id = boot_id;
  source = host_reboot;
  systemd_active_state = "inactive";
  systemd_sub_state = "dead";
}

-- The body of the loop of `ApplyReboot` for one entry of the map.
unfoldable pub reboot_one : Engine → String → String → ℕ → Engine × List Event
unfolding reboot_event
reboot_one e service boot_id event_time =
    let s = state_or_zero e service in
    let event = reboot_event e service boot_id event_time in
    if is_none (lookup service e.states)
    then (e, [])
    else if not (is_up s.availability)
    then (record e { states = insert service (record s { boot_id = boot_id }) e.states }, [])
    else (
      record e {
        seq = event.sequence;
        states =
            insert service
              (record s {
                availability = down;
                boot_id = boot_id;
                last_event_time_unix_ms = event_time;
                last_sequence = event.sequence;
              })
              e.states;
      },
      event ∷ [],
    )

-- The keys are visited in an order that Go leaves open: it is an argument.
unfoldable pub apply_reboot : Engine → List String → String → ℕ → Engine × List Event
apply_reboot e [] boot_id event_time = (e, [])
apply_reboot e (service ∷ order) boot_id event_time =
    let (e', now) = reboot_one e service boot_id event_time in
    let (e'', later) = apply_reboot e' order boot_id event_time in (e'', now ++ later)
