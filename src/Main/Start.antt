-- ===== src/Main/Start.antt =====
-- internal/sip/local.go, and the choice of the probes at the start of main in
-- cmd/systemd-transition-exporter/main.go.
use systemd_transition_expor.Base.{
  Bool, false, not, ◌||◌, Option, none, some, List, [], ◌∷◌, ◌++◌, map, if◌then◌else◌,
}
use systemd_transition_expor.Base.Text.{Text, is_empty}
use systemd_transition_expor.Config.Target.{Service, Duration}
use systemd_transition_expor.Config.Settings.{Kind, sip_kind, dns_kind, agw_kind}

-- The addresses of the package net: those with a network, those alone, and others; an address may
-- lack its IP.
pub data Addr (A : Type 0) : Type 0 where
  ip_net : Option A → Addr A
  ip_addr : Option A → Addr A
  other_addr : Addr A

-- The probe of a service. The three packages have the same type.
pub record ProbeSpec : Type 0 where
  pub service : Text
  pub uri : Text
  pub addr : Text
  pub interval : Duration

pub record Chosen : Type 0 where
  pub sip : List ProbeSpec
  pub dns : List ProbeSpec
  pub agw : List ProbeSpec

-- The kind of a service and its target; for one without a target the kind is not used.
unfoldable pub probe_kind : Service → Kind
probe_kind s =
    if not (is_empty (s.dns))
    then dns_kind
    else if not (is_empty (s.agw))
    then agw_kind
    else sip_kind

abbrev pub target_for : Kind → Service → Text
target_for dns_kind s = s.dns
target_for agw_kind s = s.agw
target_for kind s = s.sip

abbrev pub spec : Kind → Service → ProbeSpec
spec kind s = record {
  service = s.name;
  uri = target_for kind s;
  addr = s.addr;
  interval = s.interval;
}

abbrev pub put : Kind → ProbeSpec → Chosen → Chosen
put dns_kind p c = record c { dns = p ∷ c.dns }
put agw_kind p c = record c { agw = p ∷ c.agw }
put kind p c = record c { sip = p ∷ c.sip }

-- An IP is of a type of the package net, with its parser and its method Equal.
module _ {A : Type 0} (split_host_port : Text → Option (Text × Text)) (parse_ip : Text → Option A)
    (equal : A → A → Bool) where
  unfoldable pub addr_ip : Addr A → Option A
  addr_ip (ip_net ip) = ip
  addr_ip (ip_addr ip) = ip
  addr_ip other_addr = none

  abbrev pub with_ip : Option A → List A → List A
  with_ip none ips = ips
  with_ip (some ip) ips = ip ∷ ips

  abbrev pub ips_of : List (Addr A) → List A → List A
  unfolding addr_ip
  ips_of [] ips = ips
  ips_of (a ∷ addrs) ips = with_ip (addr_ip a) (ips_of addrs ips)

  abbrev pub with_interface : Option (List (Addr A)) → Option (List A) → Option (List A)
  unfolding ips_of
  with_interface none rest = none
  with_interface (some addrs) none = none
  with_interface (some addrs) (some ips) = some (ips_of addrs ips)

  -- The addresses of every interface, `none` where they cannot be read.
  unfoldable pub local_ips : Option (List (Option (List (Addr A)))) → Option (List A)
  unfolding with_interface
  local_ips none = none
  local_ips (some []) = some []
  local_ips (some (i ∷ interfaces)) = with_interface i (local_ips (some interfaces))

  abbrev pub is_local : A → List A → Bool
  is_local ip [] = false
  is_local ip (x ∷ ips) = equal x ip || is_local ip ips

  abbrev pub ip_is_local : Option A → List A → Bool
  ip_is_local none ips = false
  ip_is_local (some ip) ips = is_local ip ips

  abbrev pub host_is_local : Option (Text × Text) → List A → Bool
  host_is_local none ips = false
  host_is_local (some (host, port)) ips = ip_is_local (parse_ip host) ips

  -- `false` for an error.
  unfoldable pub require_local : Text → List A → Bool
  require_local addr ips = host_is_local (split_host_port addr) ips

  abbrev pub chosen_with : Kind → Service → Option Chosen → Option Chosen
  chosen_with kind s none = none
  chosen_with kind s (some c) = some (put kind (spec kind s) c)

  abbrev pub choose_local : Service → Option (List A) → Option Chosen → Option Chosen
  choose_local s none rest = none
  choose_local s (some ips) rest =
      if require_local (s.addr) ips then chosen_with (probe_kind s) s rest else none

  -- `none` where main ends; `ips` is what LocalIPs gives.
  unfoldable pub choose_probes : Option (List A) → List Service → Option Chosen
  choose_probes ips [] = some record { sip = []; dns = []; agw = [] }
  choose_probes ips (s ∷ services) =
      let rest = choose_probes ips services in
      if is_empty (target_for (probe_kind s) s) then rest else choose_local s ips rest

-- The services whose UP waits for their probes.
unfoldable pub delayed : Chosen → List Text
delayed c = map (λ p. p.service) (c.sip ++ (c.dns ++ c.agw))
