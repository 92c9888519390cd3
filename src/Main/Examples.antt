-- ===== src/Main/Examples.antt =====
-- The callbacks on the engine of one service, with a log that takes everything.
use systemd_transition_expor.Base.{◌*◌, refl, true, none, some, [], ◌∷◌}
use systemd_transition_expor.Model.{UnitSnapshot, Event, down, recovery, sip}
use systemd_transition_expor.Engine.{new}
use systemd_transition_expor.Recovery.Slot.{minute_ns}
use systemd_transition_expor.Main.{Outside, on_snapshot, publish_ready, on_recovery}
use systemd_transition_expor.Main.Ahead.{Ahead}
use systemd_transition_expor.Base.{◌≡◌, All, map, filter_by, Option, List}
use systemd_transition_expor.Base.Text.{Text, codes, text_eq}
use systemd_transition_expor.Probe.Sip.{cut}
use systemd_transition_expor.Config.Target.{Service, pos}
use systemd_transition_expor.Config.Settings.{seen_in}
use systemd_transition_expor.Main.Start.{
  ProbeSpec, Chosen, Addr, ip_net, ip_addr, other_addr, local_ips, addr_ip, require_local,
  choose_probes, delayed, probe_kind,
}
use systemd_transition_expor.Main.Delayed.{IsLocal, probes_of, has_target, choose_probes-delayed}
use systemd_transition_expor.Main.WriteAhead.{callbacks-Ahead}

abbrev outside : Outside
outside = record {
  log_enabled = true;
  accepts = λ e. true;
  saves = λ s. true;
  targets = "t" ∷ "u" ∷ [];
}

abbrev snapshot : UnitSnapshot
snapshot = record {
  service = "a";
  active_state = "active";
  sub_state = "running";
  active_enter_timestamp_us = 7000;
  active_exit_timestamp_us = 0;
  active_enter_timestamp_monotonic_us = 3;
  active_exit_timestamp_monotonic_us = 0;
  boot_id = "b";
  observed_at = 9;
}

abbrev stop_event : Event
stop_event = record {
  sequence = 0;
  service = "a";
  state = down;
  event_time_unix_ms = 1000;
  event_time_monotonic_us = 0;
  boot_id = "b";
  source = recovery;
  systemd_active_state = "inactive";
  systemd_sub_state = "dead";
}

callbacks-Ahead_example :
    Ahead [] (((on_snapshot outside new snapshot).0).0)
    × Ahead [] (((publish_ready outside new "a" 12 sip).0).0)
    × Ahead [] (
        ((on_recovery outside 0
          (15 * minute_ns)
          new
          5
          (20 * minute_ns)
          (some (stop_event ∷ []))
          (some [])).0
        ).0)
callbacks-Ahead_example =
    callbacks-Ahead outside new snapshot "a" 12 sip 0 (15 * minute_ns) 5 (20 * minute_ns)
      (some (stop_event ∷ [])) (some []) refl

-- A service without a target and one of DNS at the only address of the host.
abbrev plain : Service
plain = record {
  name = codes "cron.service";
  sip = [];
  dns = [];
  agw = [];
  addr = [];
  interval = pos 0;
}

abbrev named : Service
named = record {
  name = codes "named.service";
  sip = [];
  dns = codes "dns:10.0.0.1:53";
  agw = [];
  addr = codes "10.0.0.1:53";
  interval = pos 5;
}

abbrev at_colon : Text → Option (Text × Text)
unfolding cut
at_colon t = cut b':' t

abbrev as_ip : Text → Option Text
as_ip t = some t

abbrev named_probe : ProbeSpec
named_probe = record {
  service = codes "named.service";
  uri = codes "dns:10.0.0.1:53";
  addr = codes "10.0.0.1:53";
  interval = pos 5;
}

abbrev chosen : Chosen
chosen = record { sip = []; dns = named_probe ∷ []; agw = [] }

abbrev interfaces : List (Option (List (Addr Text)))
interfaces =
    some (ip_net (some (codes "127.0.0.1")) ∷ other_addr ∷ [])
    ∷ some (ip_addr none ∷ ip_addr (some (codes "10.0.0.1")) ∷ [])
    ∷ []

choose_probes-delayed_example :
    All (IsLocal at_colon as_ip text_eq interfaces) (probes_of chosen)
    × (seen_in (codes "cron.service") (delayed chosen)
        ≡ seen_in
            (codes "cron.service")
            (map (λ s. s.name) (filter_by has_target (plain ∷ named ∷ []))))
unfolding choose_probes probe_kind require_local local_ips addr_ip cut
choose_probes-delayed_example =
    choose_probes-delayed at_colon as_ip text_eq interfaces (plain ∷ named ∷ []) chosen
      (codes "cron.service") refl
