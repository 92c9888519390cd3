-- ===== src/Engine/Startup.antt =====
-- cmd/systemd-transition-exporter/main.go: what the start does with the engine after the host
-- has rebooted. The times are in milliseconds.
use systemd_transition_expor.Base.{
  ℕ, ◌≡◌, String, Bool, false, not, ◌&&◌, ◌||◌, Option, none, some, List, [], ◌∷◌, str_eq, ltb,
  if◌then◌else◌,
}
use systemd_transition_expor.Model.{down, Event, ServiceState}
use systemd_transition_expor.Engine.{Engine, state, adopt_boot_id, apply_reboot}

abbrev foreign : String → Option ServiceState → Bool
foreign boot_id none = false
foreign boot_id (some s) = not (str_eq s.boot_id "") && not (str_eq s.boot_id boot_id)

-- The loop that finds a configured service of another boot.
unfoldable pub boot_changed : Engine → String → List String → Bool
boot_changed e boot_id [] = false
boot_changed e boot_id (k ∷ units) = foreign boot_id (state e k) || boot_changed e boot_id units

-- The engine and the events that are persisted; `order` is the order of Go's `range`.
unfoldable pub startup_reboot :
    Engine → List String → List String → String → ℕ → ℕ → Engine × List Event
startup_reboot e units order boot_id boot_time slot_start =
    let e' = if ltb boot_time slot_start then adopt_boot_id e boot_id else e in
    if boot_changed e boot_id units then apply_reboot e' order boot_id boot_time else (e, [])

-- A DOWN event at the host's boot.
abbrev pub AtBoot : String → ℕ → Event → Type 0
AtBoot b t x = (x.state ≡ down) × (x.event_time_unix_ms ≡ t) × (x.boot_id ≡ b)
