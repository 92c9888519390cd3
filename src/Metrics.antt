-- ===== src/Metrics.antt =====
-- internal/metrics/metrics.go: the registry and the lines of its page. The text of the HELP lines is
-- left out. Every operation holds the lock, so an operation is one step.
pub mod Page
pub mod Label
mod Examples
use systemd_transition_expor.Base.{
  ℕ, ◌+◌, ◌-◌, ◌/◌, ◌%◌, ◌≡◌, refl, String, Bool, true, false, not, ◌&&◌, Option, none, some, List,
  [], ◌∷◌, ◌++◌, if◌then◌else◌, ltb, u64_inc, u64_mod,
}
use systemd_transition_expor.Base.Dict.{Dict, lookup, insert}
use systemd_transition_expor.Base.Text.{Text}
use systemd_transition_expor.RemoteWrite.{Stats}
use systemd_transition_expor.Model.{AvailabilityState, Event, is_up, is_down}

-- Times in milliseconds and durations in nanoseconds; the zero time is `none`.
pub record Registry : Type 0 where
  pub states : Dict AvailabilityState
  pub up : Dict ℕ
  pub down : Dict ℕ
  pub last : Dict ℕ
  pub dbus_connected : Bool
  pub dbus_disconnects : ℕ
  pub dbus_last_change_ms : ℕ
  pub dbus_disconnected_at : Option ℕ
  pub identity_hostname : Text
  pub identity_instance : Text
  pub identity_listen : Text
  pub remote_write : Dict Stats
  pub remote_write_dropped : Dict ℕ
  pub recovery_attempts : ℕ
  pub recovery_slot_start_ms : ℕ
  pub recovery_slot_end_ms : ℕ
  pub uncovered : ℕ
  pub wal_enabled : Bool
  pub wal_writable : Bool
  pub wal_pending : ℕ

unfoldable pub new : Registry
new = record {
  states = [];
  up = [];
  down = [];
  last = [];
  dbus_connected = false;
  dbus_disconnects = 0;
  dbus_last_change_ms = 0;
  dbus_disconnected_at = none;
  identity_hostname = [];
  identity_instance = [];
  identity_listen = [];
  remote_write = [];
  remote_write_dropped = [];
  recovery_attempts = 0;
  recovery_slot_start_ms = 0;
  recovery_slot_end_ms = 0;
  uncovered = 0;
  wal_enabled = false;
  wal_writable = false;
  wal_pending = 0;
}

abbrev pub ns_per_ms : ℕ
ns_per_ms = 1000000

unfoldable pub set_identity : Text → Text → Text → Registry → Registry
set_identity hostname instance listen r = record r {
  identity_hostname = hostname;
  identity_instance = instance;
  identity_listen = listen;
}

unfoldable pub set_wal_status : Bool → ℕ → Registry → Registry
set_wal_status writable pending r = record r {
  wal_enabled = true;
  wal_writable = writable;
  wal_pending = pending;
}

unfoldable pub set_state : String → AvailabilityState → Registry → Registry
set_state service state r = record r { states = insert service state (r.states) }

-- A missing counter is zero.
abbrev pub value_of : Option ℕ → ℕ
value_of none = 0
value_of (some n) = n

abbrev pub count_in : String → Dict ℕ → Dict ℕ
count_in service d = insert service (u64_inc (value_of (lookup service d))) d

unfoldable pub event : Event → Registry → Registry
event e r = record r {
  states = insert (e.service) (e.state) (r.states);
  last = insert (e.service) (e.event_time_unix_ms) (r.last);
  up = if is_up (e.state) then count_in (e.service) (r.up) else r.up;
  down = if is_down (e.state) then count_in (e.service) (r.down) else r.down;
}

abbrev pub same_bool : Bool → Bool → Bool
same_bool true b = b
same_bool false b = not b

-- `at` in nanoseconds.
unfoldable pub set_dbus_connected : Bool → ℕ → Registry → Registry
set_dbus_connected connected at r = if same_bool (r.dbus_connected) connected then r else record r {
  dbus_connected = connected;
  dbus_last_change_ms = at / ns_per_ms;
  dbus_disconnected_at = if connected then none else some at;
  dbus_disconnects = if connected then r.dbus_disconnects else u64_inc (r.dbus_disconnects);
}

unfoldable pub set_remote_write_stats : String → Stats → Registry → Registry
set_remote_write_stats target stats r = record r {
  remote_write = insert target stats (r.remote_write);
}

-- A number below zero is dropped as zero is.
unfoldable pub add_dropped_events : String → ℕ → Registry → Registry
add_dropped_events target n r =
    if ltb 0 n
    then record r {
      remote_write_dropped =
          insert target ((value_of (lookup target (r.remote_write_dropped)) + n) % u64_mod)
            (r.remote_write_dropped);
    }
    else r

-- The three times in nanoseconds.
unfoldable pub record_recovery : ℕ → ℕ → ℕ → Registry → Registry
record_recovery observed_from slot_start slot_end r = record r {
  recovery_attempts = u64_inc (r.recovery_attempts);
  recovery_slot_start_ms = slot_start / ns_per_ms;
  recovery_slot_end_ms = slot_end / ns_per_ms;
  uncovered = if ltb observed_from slot_start then slot_start - observed_from else 0;
}
