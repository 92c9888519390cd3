-- ===== src/Metrics/Page.antt =====
-- Handler: the families of the page and their samples.
use systemd_transition_expor.Base.{
  ℕ, ◌-◌, ◌≡◌, refl, String, Bool, true, false, Option, none, some, List, [], ◌∷◌, ◌++◌, map,
  if◌then◌else◌,
}
use systemd_transition_expor.Base.Dict.{lookup, keys}
use systemd_transition_expor.Base.Sort.{sort_stable}
use systemd_transition_expor.Base.Text.{Text}
use systemd_transition_expor.Model.{AvailabilityState, Event}
use systemd_transition_expor.RemoteWrite.{Stats}
use systemd_transition_expor.Metrics.{Registry, value_of, event, set_state}
use systemd_transition_expor.Metrics.Label.{prom_label}

-- A number, a time in milliseconds that is printed in seconds, a duration in nanoseconds likewise.
pub data Value : Type 0 where
  whole : ℕ → Value
  millis : ℕ → Value
  nanos : ℕ → Value

-- The text of the labels, and the target's for the counters that have one.
pub data Labels : Type 0 where
  no_labels : Labels
  identity_labels : Text → Text → Text → Labels
  target_label : String → Labels

pub record Family : Type 0 where
  pub name : String
  pub is_counter : Bool
  pub samples : List (Labels × Value)

abbrev gauge : String → Value → Family
gauge name v = record { name = name; is_counter = false; samples = (no_labels, v) ∷ [] }

abbrev counter : String → Value → Family
counter name v = record { name = name; is_counter = true; samples = (no_labels, v) ∷ [] }

abbrev one_if : Bool → ℕ
one_if true = 1
one_if false = 0

abbrev wal_families : Registry → List Family
wal_families r =
    if r.wal_enabled
    then gauge "systemd_transition_exporter_wal_writable" (whole (one_if (r.wal_writable)))
      ∷ gauge "systemd_transition_exporter_wal_pending_events" (whole (r.wal_pending))
      ∷ []
    else []

abbrev since : ℕ → Option ℕ → ℕ
since now none = 0
since now (some at) = now - at

-- The counters of the targets that have any, in the order of their names.
abbrev per_target : String → (String → ℕ) → List String → Family
per_target name count targets = record {
  name = name;
  is_counter = true;
  samples = map (λ t. (target_label t, whole (count t))) targets;
}

abbrev stat : (Stats → ℕ) → Option Stats → ℕ
stat f none = 0
stat f (some s) = f s

abbrev stat_of : Registry → (Stats → ℕ) → String → ℕ
stat_of r f target = stat f (lookup target (r.remote_write))

-- `less` is the order of strings; `now` is in nanoseconds.
unfoldable pub page : (String → String → Bool) → ℕ → Registry → List Family
page less now r =
    let targets = sort_stable less (keys (r.remote_write)) in
    (record {
      name = "systemd_transition_exporter_identity_info";
      is_counter = false;
      samples =
          (
            identity_labels (prom_label (r.identity_hostname)) (prom_label (r.identity_instance))
                (prom_label (r.identity_listen)),
            whole 1,
          )
          ∷ [];
    }
      ∷ wal_families r)
    ++ (gauge "systemd_transition_exporter_dbus_connected" (whole (one_if (r.dbus_connected)))
        ∷ counter "systemd_transition_exporter_dbus_disconnects_total" (whole (r.dbus_disconnects))
        ∷ gauge "systemd_transition_exporter_dbus_last_change_timestamp_seconds"
            (millis (r.dbus_last_change_ms))
        ∷ gauge "systemd_transition_exporter_dbus_disconnected_seconds"
            (nanos (if r.dbus_connected then 0 else since now (r.dbus_disconnected_at)))
        ∷ per_target "systemd_transition_exporter_remote_write_successful_requests_total"
            (stat_of r (λ s. s.successful_requests)) targets
        ∷ per_target "systemd_transition_exporter_remote_write_failed_requests_total"
            (stat_of r (λ s. s.failed_requests)) targets
        ∷ per_target "systemd_transition_exporter_remote_write_retries_total"
            (stat_of r (λ s. s.retries)) targets
        ∷ per_target "systemd_transition_exporter_remote_write_samples_sent_total"
            (stat_of r (λ s. s.sent_samples)) targets
        ∷ per_target "systemd_transition_exporter_remote_write_dropped_events_total"
            (λ t. value_of (lookup t (r.remote_write_dropped))) targets
        ∷ counter "systemd_transition_exporter_recovery_attempts_total"
            (whole (r.recovery_attempts))
        ∷ gauge "systemd_transition_exporter_recovery_slot_start_timestamp_seconds"
            (millis (r.recovery_slot_start_ms))
        ∷ gauge "systemd_transition_exporter_recovery_slot_end_timestamp_seconds"
            (millis (r.recovery_slot_end_ms))
        ∷ gauge "systemd_transition_exporter_recovery_uncovered_seconds" (nanos (r.uncovered))
        ∷ [])

-- No event and no state of a service shows on the page.
page-event :
    (less : String → String → Bool) (now : ℕ) (e : Event) (r : Registry)
    → page less now (event e r) ≡ page less now r
unfolding page event
page-event less now e r = refl

page-set_state :
    (less : String → String → Bool) (now : ℕ) (service : String) (s : AvailabilityState)
    (r : Registry)
    → page less now (set_state service s r) ≡ page less now r
unfolding page set_state
page-set_state less now service s r = refl
