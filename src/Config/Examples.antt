-- ===== src/Config/Examples.antt =====
-- A configuration with a plain service and one with a target, and one URL.
use systemd_transition_expor.Base.{◌≡◌, ◌*◌, refl, true, false, Option, some, [], ◌∷◌, ◌++◌, All}
use systemd_transition_expor.Base.Text.{
  Text, codes, is_empty, trim_space, trim_left, trim_right, lower,
}
use systemd_transition_expor.Base.Decimal.{number, digits, decimal, decimal_from}
use systemd_transition_expor.Probe.Sip.{cut}
use systemd_transition_expor.Recovery.Slot.{minute_ns, ms_ns}
use systemd_transition_expor.Config.Target.{
  Service, pos, negsuc, parse_probe_target, atoi, valid_label_name, with_listen_port,
  unmarshal_service, scalar,
}
use systemd_transition_expor.Config.Settings.{
  second_ns, Config, RemoteWriteConfig, accepted, rejected, kind_of, uneven_window,
}
use systemd_transition_expor.Config.Load.{
  load, with_server_defaults, check_service, check_services, check_urls, new_target, check_settings,
  with_defaults, check_enabled, check_remote_write, units,
}
use systemd_transition_expor.Config.Passed.{Distinct}
use systemd_transition_expor.Config.Services.{IsValid, load-IsValid}
use systemd_transition_expor.Config.RemoteWrite.{IsSound, load-IsSound}

abbrev split_at_colon : Text → Option (Text × Text)
unfolding cut
split_at_colon t = cut b':' t

abbrev join_with_colon : Text → Text → Text
join_with_colon host port = host ++ b':' ∷ port

abbrev same_sum : Text → Text
same_sum t = codes "0123456789ab"

abbrev plain : Service
plain = record {
  name = codes "cron.service";
  sip = [];
  dns = [];
  agw = [];
  addr = [];
  interval = pos 0;
}

abbrev named : Service
named = record {
  name = codes "named.service";
  sip = [];
  dns = codes "DNS:10.0.0.1:53";
  agw = [];
  addr = [];
  interval = pos (500 * ms_ns);
}

abbrev decoded : Config
decoded = record {
  listen = [];
  debug = false;
  services = plain ∷ named ∷ [];
  systemd = record {
    reconnect_interval = pos 0;
    reconciliation_interval = negsuc 4;
    startup_recovery_interval = pos 7;
  };
  wal = record { enabled = true; directory = codes "/tmp"; fsync = false };
  remote_write = record {
    enabled = true;
    url = codes " http://a ";
    urls = [];
    batch_size = pos 0;
    flush_interval = pos 0;
    retry_interval = pos 0;
    timeout = pos 0;
    checkpoint = codes "c";
    state_interval = pos 0;
    recovery_fill_interval = pos 0;
    recovery_window = pos 0;
    labels = (codes "zone", codes "a") ∷ [];
    targets = [];
  };
}

abbrev ready : Config
ready = record decoded {
  listen = codes "127.0.0.1:9877";
  services =
      plain ∷ record named { dns = codes "dns:10.0.0.1:53"; addr = codes "10.0.0.1:53" } ∷ [];
  systemd = record {
    reconnect_interval = pos second_ns;
    reconciliation_interval = pos (30 * second_ns);
    startup_recovery_interval = pos 7;
  };
  remote_write = record (decoded.remote_write) {
    batch_size = pos 100;
    flush_interval = pos second_ns;
    retry_interval = pos second_ns;
    timeout = pos (10 * second_ns);
    state_interval = pos minute_ns;
    recovery_fill_interval = pos minute_ns;
    recovery_window = pos (15 * minute_ns);
    targets =
        record {
          id = codes "0123456789ab";
          url = codes "http://a";
          checkpoint = codes "c";
          legacy_checkpoint = [];
        }
        ∷ [];
  };
}

loads : load split_at_colon join_with_colon same_sum (λ t. some decoded) (some []) ≡ accepted ready
unfolding load with_server_defaults check_service check_services kind_of parse_probe_target atoi
    number digits trim_space trim_left trim_right lower valid_label_name check_urls new_target
    check_settings with_defaults check_enabled check_remote_write cut
loads = refl

load-IsValid_example :
    (is_empty (ready.services) ≡ false)
    × Distinct (units ready)
    × All (IsValid split_at_colon join_with_colon) (ready.services)
load-IsValid_example =
    load-IsValid split_at_colon join_with_colon same_sum (λ t. some decoded) (some []) ready loads

load-IsSound_example : IsSound same_sum (ready.remote_write)
load-IsSound_example =
    load-IsSound split_at_colon join_with_colon same_sum (λ t. some decoded) [] decoded ready refl
      refl loads refl

-- A test: a port replaces the one of the address to listen at, and a name alone is a service.
listen_on :
    with_listen_port split_at_colon join_with_colon (codes "127.0.0.1:9877") 80
    ≡ some (codes "127.0.0.1:80")
unfolding with_listen_port cut decimal decimal_from trim_space trim_left trim_right
listen_on = refl

name_alone : unmarshal_service (scalar (codes " cron.service ")) ≡ some plain
unfolding unmarshal_service trim_space trim_left trim_right
name_alone = refl

abbrev uneven : RemoteWriteConfig
uneven = record (decoded.remote_write) { recovery_window = pos (7 * minute_ns) }

uneven_rejected : check_remote_write same_sum uneven ≡ rejected uneven_window
unfolding check_remote_write check_enabled with_defaults check_urls check_settings new_target
    trim_space trim_left trim_right
uneven_rejected = refl
