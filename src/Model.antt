-- ===== src/Model.antt =====
-- internal/model/model.go: the data that the components exchange. Instants are numbers of
-- milliseconds (or microseconds, `us`) since the Unix epoch, so nothing before 1970 is modelled.
use systemd_transition_expor.Base.{ℕ, String, Bool, true, false, if◌then◌else◌}
use systemd_transition_expor.Base.Text.{Text, codes, text_eq, trim_space, remove_all, to_lower}

-- `AvailabilityState`
pub data AvailabilityState : Type 0 where
  unknown up down : AvailabilityState

-- `EventSource`
pub data EventSource : Type 0 where
  systemd host_reboot recovery sip dns agw : EventSource

-- `strings.ToLower(strings.ReplaceAll(strings.TrimSpace(id), "-", ""))`
unfoldable pub canonical_boot_id : Text → Text
canonical_boot_id id = to_lower (remove_all b'-' (trim_space id))

-- The method `String` of `AvailabilityState`.
unfoldable pub state_name : AvailabilityState → String
state_name up = "up"
state_name down = "down"
state_name unknown = "unknown"

-- The method `String` of `EventSource`.
unfoldable pub source_name : EventSource → String
source_name systemd = "systemd"
source_name host_reboot = "host_reboot"
source_name recovery = "recovery"
source_name sip = "sip"
source_name dns = "dns"
source_name agw = "agw"

unfoldable pub availability_from_active_state : String → AvailabilityState
availability_from_active_state active =
    if text_eq (trim_space (codes active)) (codes "active") then up else down

pub record UnitSnapshot : Type 0 where
  pub service : String
  pub active_state : String
  pub sub_state : String
  pub active_enter_timestamp_us : ℕ
  pub active_exit_timestamp_us : ℕ
  pub active_enter_timestamp_monotonic_us : ℕ
  pub active_exit_timestamp_monotonic_us : ℕ
  pub boot_id : String
  pub observed_at : ℕ

pub record Event : Type 0 where
  pub sequence : ℕ
  pub service : String
  pub state : AvailabilityState
  pub event_time_unix_ms : ℕ
  pub event_time_monotonic_us : ℕ
  pub boot_id : String
  pub source : EventSource
  pub systemd_active_state : String
  pub systemd_sub_state : String

pub record StateSample : Type 0 where
  pub service : String
  pub state : AvailabilityState
  pub timestamp_unix_ms : ℕ

pub record ServiceState : Type 0 where
  pub service : String
  pub availability : AvailabilityState
  pub active_state : String
  pub sub_state : String
  pub boot_id : String
  pub last_active_enter_timestamp_us : ℕ
  pub last_active_exit_timestamp_us : ℕ
  pub last_active_enter_monotonic_us : ℕ
  pub last_active_exit_monotonic_us : ℕ
  pub last_event_time_unix_ms : ℕ
  pub last_event_mono_us : ℕ
  pub last_sequence : ℕ
  pub awaiting_sip : Bool

-- Go's zero value, which a map yields for a missing key.
abbrev pub zero_state : ServiceState
zero_state = record {
  service = "";
  availability = unknown;
  active_state = "";
  sub_state = "";
  boot_id = "";
  last_active_enter_timestamp_us = 0;
  last_active_exit_timestamp_us = 0;
  last_active_enter_monotonic_us = 0;
  last_active_exit_monotonic_us = 0;
  last_event_time_unix_ms = 0;
  last_event_mono_us = 0;
  last_sequence = 0;
  awaiting_sip = false;
}

abbrev pub is_up : AvailabilityState → Bool
is_up up = true
is_up _ = false

abbrev pub is_down : AvailabilityState → Bool
is_down down = true
is_down _ = false
