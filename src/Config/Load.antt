-- ===== src/Config/Load.antt =====
-- Load: the defaults and the checks, in the order of the code.
use systemd_transition_expor.Base.{
  ℕ, suc, ◌+◌, ◌*◌, ◌%◌, Bool, true, false, not, ◌&&◌, ◌||◌, Option, none, some, List, [], ◌∷◌,
  ◌++◌, map, if◌then◌else◌, ltb, leb, ◌==◌,
}
use systemd_transition_expor.Base.Text.{Text, codes, is_empty, trim_space, text_eq}
use systemd_transition_expor.Recovery.Slot.{minute_ns, hour_ns}
use systemd_transition_expor.Config.Target.{
  pos, negsuc, Duration, le_zero, is_zero, or_default, Service, contains_any, parse_probe_target,
  valid_label_name,
}
use systemd_transition_expor.Config.Settings.{
  second_ns, RemoteWriteTarget, RemoteWriteConfig, Config, unreadable, unparsable, no_services,
  unnamed_service, duplicate_service, many_targets, interval_without_target, no_interval, both_urls,
  no_urls, empty_url, duplicate_url, bad_fill_interval, bad_window, uneven_window, bad_label,
  Loaded, rejected, accepted, seen_in, count_one, Kind, no_kind, kind_of, target_of, scheme_of,
  found_target,
}

abbrev pub put_first : Service → Loaded (List Service) → Loaded (List Service)
put_first s (rejected p) = rejected p
put_first s (accepted rest) = accepted (s ∷ rest)

abbrev pub after_service : Loaded Service → Loaded (List Service) → Loaded (List Service)
after_service (rejected p) rest = rejected p
after_service (accepted s) rest = put_first s rest

-- SplitHostPort and JoinHostPort of the package net.
module _ (split_host_port : Text → Option (Text × Text)) (join_host_port : Text → Text → Text) where
  -- A service that has a name of its own, at its position.
  abbrev pub check_probe : ℕ → Kind → Service → Loaded Service
  check_probe i no_kind s =
      if not (is_zero (s.interval)) then rejected (interval_without_target i) else accepted s
  check_probe i kind s =
      if le_zero (s.interval)
      then rejected (no_interval i)
      else found_target i kind
          (parse_probe_target split_host_port join_host_port (target_of kind s) (scheme_of kind)) s

  unfoldable pub check_service : ℕ → List Text → Service → Loaded Service
  check_service i seen s =
      if is_empty (s.name) || contains_any (s.name) (32 ∷ 9 ∷ [])
      then rejected (unnamed_service i)
      else if seen_in (s.name) seen
      then rejected duplicate_service
      else if ltb 1 (count_one (s.sip) + count_one (s.dns) + count_one (s.agw))
      then rejected (many_targets i)
      else check_probe i (kind_of s) s

  unfoldable pub check_services : ℕ → List Text → List Service → Loaded (List Service)
  check_services i seen [] = accepted []
  check_services i seen (s ∷ ss) =
      after_service (check_service i seen s) (check_services (suc i) (s.name ∷ seen) ss)

-- `sum` gives the hexadecimal text of the first six bytes of a text's SHA-256.
abbrev pub first_only : ℕ → Text → Text
first_only i checkpoint = if i == 0 then checkpoint else []

-- Without the key remote_write.urls a target keeps the checkpoint's name as it is.
unfoldable pub new_target : (Text → Text) → Bool → Text → ℕ → Text → RemoteWriteTarget
new_target sum legacy checkpoint i url = record {
  id = sum url;
  url = url;
  checkpoint = if legacy then checkpoint else checkpoint ++ (codes "." ++ sum url);
  legacy_checkpoint = if legacy then [] else first_only i checkpoint;
}

abbrev pub put_target :
    RemoteWriteTarget → Loaded (List RemoteWriteTarget) → Loaded (List RemoteWriteTarget)
put_target t (rejected p) = rejected p
put_target t (accepted rest) = accepted (t ∷ rest)

unfoldable pub check_urls :
    (Text → Text) → Bool → Text → ℕ → List Text → List Text → Loaded (List RemoteWriteTarget)
check_urls sum legacy checkpoint i seen [] = accepted []
check_urls sum legacy checkpoint i seen (raw ∷ urls) =
    let url = trim_space raw in
    let rest = check_urls sum legacy checkpoint (suc i) (url ∷ seen) urls in
    if is_empty url
    then rejected (empty_url i)
    else if seen_in url seen
    then rejected duplicate_url
    else put_target (new_target sum legacy checkpoint i url) rest

abbrev pub within : ℕ → ℕ → Duration → Bool
within low high (pos n) = leb low n && leb n high
within low high (negsuc n) = false

-- `time.Hour % d == 0`, for a positive duration.
abbrev pub divides_hour : Duration → Bool
divides_hour (pos n) = hour_ns % n == 0
divides_hour (negsuc n) = false

abbrev pub labels_valid : List (Text × Text) → Bool
labels_valid [] = true
labels_valid ((name, value) ∷ rest) =
    not (not (valid_label_name name) || text_eq name (codes "__name__")) && labels_valid rest

unfoldable pub with_defaults : RemoteWriteConfig → RemoteWriteConfig
with_defaults r = record r {
  batch_size = or_default (r.batch_size) 100;
  flush_interval = or_default (r.flush_interval) second_ns;
  retry_interval = or_default (r.retry_interval) second_ns;
  timeout = or_default (r.timeout) (10 * second_ns);
  checkpoint =
      if is_empty (r.checkpoint)
      then codes "/var/lib/systemd-transition-exporter/remote_write.checkpoint"
      else r.checkpoint;
}

-- The checks of what has its targets.
unfoldable pub check_settings : RemoteWriteConfig → Loaded RemoteWriteConfig
check_settings r =
    let s = record r { state_interval = or_default (r.state_interval) minute_ns } in
    if not (within (10 * second_ns) (4 * minute_ns) (s.recovery_fill_interval))
    then rejected bad_fill_interval
    else if not (within (5 * minute_ns) (60 * minute_ns) (s.recovery_window))
    then rejected bad_window
    else if not (divides_hour (s.recovery_window))
    then rejected uneven_window
    else if not (labels_valid (s.labels))
    then rejected bad_label
    else accepted s

abbrev pub with_targets :
    RemoteWriteConfig → Loaded (List RemoteWriteTarget) → Loaded RemoteWriteConfig
with_targets r (rejected p) = rejected p
with_targets r (accepted ts) = check_settings (record r { targets = r.targets ++ ts })

-- The URLs, and whether they are the single one of remote_write.url.
abbrev pub chosen_urls : RemoteWriteConfig → List Text × Bool
chosen_urls r =
    if is_empty (r.urls) && not (is_empty (r.url)) then (r.url ∷ [], true) else (r.urls, false)

unfoldable pub check_enabled : (Text → Text) → RemoteWriteConfig → Loaded RemoteWriteConfig
check_enabled sum r =
    if not (is_empty (r.url)) && not (is_empty (r.urls))
    then rejected both_urls
    else if is_empty ((chosen_urls r).0)
    then rejected no_urls
    else let d = with_defaults r in
      with_targets d (check_urls sum ((chosen_urls r).1) (d.checkpoint) 0 [] ((chosen_urls r).0))

-- The slot and the ticks of recovery have their defaults even where delivery is disabled.
abbrev pub with_slots : RemoteWriteConfig → RemoteWriteConfig
with_slots r = record r {
  recovery_fill_interval = or_default (r.recovery_fill_interval) minute_ns;
  recovery_window = or_default (r.recovery_window) (15 * minute_ns);
}

unfoldable pub check_remote_write : (Text → Text) → RemoteWriteConfig → Loaded RemoteWriteConfig
check_remote_write sum r =
    let s = with_slots r in if r.enabled then check_enabled sum s else accepted s

abbrev pub with_remote_write : Config → Loaded RemoteWriteConfig → Loaded Config
with_remote_write c (rejected p) = rejected p
with_remote_write c (accepted r) = accepted (record c { remote_write = r })

abbrev pub with_services : (Text → Text) → Config → Loaded (List Service) → Loaded Config
with_services sum c (rejected p) = rejected p
with_services sum c (accepted ss) =
    with_remote_write (record c { services = ss }) (check_remote_write sum (c.remote_write))

unfoldable pub with_server_defaults : Config → Config
with_server_defaults c =
    let s = c.systemd in
    record c {
      listen = if is_empty (c.listen) then codes "127.0.0.1:9877" else c.listen;
      systemd = record s {
        reconnect_interval = or_default (s.reconnect_interval) second_ns;
        reconciliation_interval = or_default (s.reconciliation_interval) (30 * second_ns);
        startup_recovery_interval = or_default (s.startup_recovery_interval) (24 * hour_ns);
      };
    }

abbrev pub load_decoded :
    (Text → Option (Text × Text))
    → (Text → Text → Text)
    → (Text → Text)
    → Option Config
    → Loaded Config
load_decoded split join sum none = rejected unparsable
load_decoded split join sum (some c) =
    let d = with_server_defaults c in
    if is_empty (d.services)
    then rejected no_services
    else with_services sum d (check_services split join 0 [] (d.services))

-- What the file holds and what the YAML library makes of it, `none` where they fail.
unfoldable pub load :
    (Text → Option (Text × Text))
    → (Text → Text → Text)
    → (Text → Text)
    → (Text → Option Config)
    → Option Text
    → Loaded Config
load split join sum unmarshal none = rejected unreadable
load split join sum unmarshal (some bytes) = load_decoded split join sum (unmarshal bytes)

abbrev pub names_of : List Service → List Text
names_of ss = map (λ s. s.name) ss

unfoldable pub units : Config → List Text
units c = names_of (c.services)
