-- ===== src/Metrics/Examples.antt =====
-- A label with all the characters that are escaped, and a page.
use systemd_transition_expor.Base.{◌≡◌, ◌++◌, refl, true, false, some, [], ◌∷◌}
use systemd_transition_expor.Base.Text.{Text, codes}
use systemd_transition_expor.Metrics.{new, set_dbus_connected, record_recovery}
use systemd_transition_expor.Metrics.Label.{prom_label, read_label, read_label-prom_label}

abbrev awkward : Text
awkward = 92 ∷ 34 ∷ 10 ∷ b'n' ∷ 92 ∷ []

read_label-prom_label_example :
    read_label (prom_label awkward ++ codes ",x") ≡ some (awkward, codes ",x")
read_label-prom_label_example = read_label-prom_label awkward (codes ",x")

-- Tests: a connection that comes, comes again and goes, and what is left uncovered.
one_disconnect :
    (set_dbus_connected false 30000000
      (set_dbus_connected true 20000000 (set_dbus_connected true 10000000 new))).dbus_disconnects
    ≡ 1
unfolding new set_dbus_connected
one_disconnect = refl

first_change_kept :
    (set_dbus_connected true 20000000 (set_dbus_connected true 10000000 new)).dbus_last_change_ms
    ≡ 10
unfolding new set_dbus_connected
first_change_kept = refl

uncovered_before_slot : (record_recovery 5 12 20 new).uncovered ≡ 7
unfolding new record_recovery
uncovered_before_slot = refl
