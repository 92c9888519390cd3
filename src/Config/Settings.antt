-- ===== src/Config/Settings.antt =====
-- The types of the configuration, the errors of Load, and the choice of a service's target.
use systemd_transition_expor.Base.{
  ℕ, ◌*◌, Bool, false, not, ◌||◌, Option, none, some, List, [], ◌∷◌, if◌then◌else◌,
}
use systemd_transition_expor.Base.Text.{Text, codes, is_empty, text_eq}
use systemd_transition_expor.Recovery.Slot.{ms_ns}
use systemd_transition_expor.Config.Target.{ℤ, Duration, Service}

abbrev pub second_ns : ℕ
second_ns = 1000 * ms_ns

pub record RemoteWriteTarget : Type 0 where
  pub id : Text
  pub url : Text
  pub checkpoint : Text
  pub legacy_checkpoint : Text

pub record RemoteWriteConfig : Type 0 where
  pub enabled : Bool
  pub url : Text
  pub urls : List Text
  pub batch_size : ℤ
  pub flush_interval : Duration
  pub retry_interval : Duration
  pub timeout : Duration
  pub checkpoint : Text
  pub state_interval : Duration
  pub recovery_fill_interval : Duration
  pub recovery_window : Duration
  pub labels : List (Text × Text)
  pub targets : List RemoteWriteTarget

pub record SystemdConfig : Type 0 where
  pub reconnect_interval : Duration
  pub reconciliation_interval : Duration
  pub startup_recovery_interval : Duration

pub record WalConfig : Type 0 where
  pub enabled : Bool
  pub directory : Text
  pub fsync : Bool

pub record Config : Type 0 where
  pub listen : Text
  pub debug : Bool
  pub services : List Service
  pub systemd : SystemdConfig
  pub wal : WalConfig
  pub remote_write : RemoteWriteConfig

-- The errors of Load, with the position of the service or the URL.
pub data Problem : Type 0 where
  unreadable : Problem
  unparsable : Problem
  no_services : Problem
  unnamed_service : ℕ → Problem
  duplicate_service : Problem
  many_targets : ℕ → Problem
  interval_without_target : ℕ → Problem
  no_interval : ℕ → Problem
  bad_target : ℕ → Problem
  both_urls : Problem
  no_urls : Problem
  empty_url : ℕ → Problem
  duplicate_url : Problem
  bad_fill_interval : Problem
  bad_window : Problem
  uneven_window : Problem
  bad_label : Problem

pub data Loaded (A : Type 0) : Type 0 where
  rejected : Problem → Loaded A
  accepted : A → Loaded A

abbrev pub and_then : {A B : Type 0} → Loaded A → (A → Loaded B) → Loaded B
and_then (rejected p) f = rejected p
and_then (accepted a) f = f a

-- Go's `map[string]struct{}` with the names or URLs seen so far.
abbrev pub seen_in : Text → List Text → Bool
seen_in name [] = false
seen_in name (other ∷ rest) = text_eq name other || seen_in name rest

abbrev pub count_one : Text → ℕ
count_one target = if is_empty target then 0 else 1

-- Which of the targets the switch takes.
pub data Kind : Type 0 where
  no_kind : Kind
  sip_kind : Kind
  dns_kind : Kind
  agw_kind : Kind

unfoldable pub kind_of : Service → Kind
kind_of s =
    if not (is_empty (s.sip))
    then sip_kind
    else if not (is_empty (s.dns))
    then dns_kind
    else if not (is_empty (s.agw))
    then agw_kind
    else no_kind

abbrev pub target_of : Kind → Service → Text
target_of no_kind s = []
target_of sip_kind s = s.sip
target_of dns_kind s = s.dns
target_of agw_kind s = s.agw

abbrev pub scheme_of : Kind → Text
scheme_of no_kind = []
scheme_of sip_kind = codes "sip"
scheme_of dns_kind = codes "dns"
scheme_of agw_kind = codes "agw"

abbrev pub set_target : Kind → Text × Text → Service → Service
set_target no_kind found s = s
set_target sip_kind (uri, addr) s = record s { sip = uri; addr = addr }
set_target dns_kind (uri, addr) s = record s { dns = uri; addr = addr }
set_target agw_kind (uri, addr) s = record s { agw = uri; addr = addr }

abbrev pub found_target : ℕ → Kind → Option (Text × Text) → Service → Loaded Service
found_target i kind none s = rejected (bad_target i)
found_target i kind (some found) s = accepted (set_target kind found s)
