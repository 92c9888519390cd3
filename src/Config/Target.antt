-- ===== src/Config/Target.antt =====
-- The types of the configuration, and the targets of the probes.
use systemd_transition_expor.Base.{
  ℕ, Bool, true, false, not, ◌&&◌, ◌||◌, Option, none, some, [], ◌∷◌, ◌++◌, if◌then◌else◌, ltb, leb,
  ◌==◌, length, take, drop,
}
use systemd_transition_expor.Base.Text.{
  Text, codes, is_empty, trim_space, to_lower, text_eq, contains,
}
use systemd_transition_expor.Base.Decimal.{decimal, number}

-- `negsuc n` is minus n minus one.
pub data ℤ : Type 0 where
  pos : ℕ → ℤ
  negsuc : ℕ → ℤ

abbrev pub Duration : Type 0
Duration = ℤ

-- `d <= 0`
abbrev pub le_zero : Duration → Bool
le_zero (pos n) = n == 0
le_zero (negsuc n) = true

abbrev pub is_zero : Duration → Bool
is_zero (pos n) = n == 0
is_zero (negsuc n) = false

-- What a duration that is not positive is replaced by.
abbrev pub or_default : Duration → ℕ → Duration
or_default d n = if le_zero d then pos n else d

pub record Service : Type 0 where
  pub name : Text
  pub sip : Text
  pub dns : Text
  pub agw : Text
  pub addr : Text
  pub interval : Duration

-- The node of a service in the file: a scalar, a mapping as the decoder gives it (`none` where it
-- fails), or another kind.
pub record RawService : Type 0 where
  pub name : Text
  pub sip : Text
  pub dns : Text
  pub agw : Text
  pub interval : Duration

pub data Node : Type 0 where
  scalar : Text → Node
  mapping : Option RawService → Node
  other_kind : Node

unfoldable pub unmarshal_service : Node → Option Service
unmarshal_service (scalar value) =
    some
      record { name = trim_space value; sip = []; dns = []; agw = []; addr = []; interval = pos 0 }
unmarshal_service (mapping none) = none
unmarshal_service (mapping (some raw)) = some record {
  name = trim_space (raw.name);
  sip = trim_space (raw.sip);
  dns = trim_space (raw.dns);
  agw = trim_space (raw.agw);
  addr = [];
  interval = raw.interval;
}
unmarshal_service other_kind = none

-- `strings.ContainsAny`
abbrev pub contains_any : Text → Text → Bool
contains_any [] chars = false
contains_any (c ∷ s) chars = contains chars (c ∷ []) || contains_any s chars

-- `strconv.Atoi`, where a result below zero is `none` as a failure is.
unfoldable pub atoi : Text → Option ℕ
atoi [] = none
atoi (c ∷ s) = if c == b'+' then number s else number (c ∷ s)

abbrev pub is_port : ℕ → Bool
is_port n = leb 1 n && leb n 65535

abbrev pub lacks_prefix : Text → Text → Bool
lacks_prefix s prefix =
    ltb (length s) (length prefix)
    || not (text_eq (to_lower (take (length prefix) s)) (to_lower prefix))

abbrev pub has_more : Text → Bool
has_more rest = contains_any rest (codes ";?") || contains rest (codes "@")

-- `net.SplitHostPort` and `net.JoinHostPort` of the standard library.
module _ (split_host_port : Text → Option (Text × Text)) (join_host_port : Text → Text → Text) where
  abbrev pub joined_target : Text → Text → Text → Option ℕ → Option (Text × Text)
  joined_target scheme host port none = none
  joined_target scheme host port (some n) =
      if is_port n
      then some (scheme ++ b':' ∷ join_host_port host port, join_host_port host port)
      else none

  abbrev pub checked_target : Text → Option (Text × Text) → Option (Text × Text)
  checked_target scheme none = none
  checked_target scheme (some (host, port)) =
      if is_empty host then none else joined_target scheme host port (atoi port)

  -- The uri and the address of a target.
  unfoldable pub parse_probe_target : Text → Text → Option (Text × Text)
  parse_probe_target raw scheme =
      let s = trim_space raw in
      let prefix = scheme ++ codes ":" in
      let rest = drop (length prefix) s in
      if lacks_prefix s prefix
      then none
      else if has_more rest
      then none
      else checked_target scheme (split_host_port rest)

  abbrev port_of : Option (Text × Text) → ℕ → Option Text
  port_of none port = none
  port_of (some (host, old)) port = some (join_host_port host (decimal port))

  -- The port is a Go int, of which those below one are rejected.
  unfoldable pub with_listen_port : Text → ℕ → Option Text
  with_listen_port listen port =
      if not (is_port port)
      then none
      else if is_empty (trim_space listen)
      then some (join_host_port [] (decimal port))
      else port_of (split_host_port listen) port

abbrev is_letter : ℕ → Bool
is_letter r = (leb b'a' r && leb r b'z') || (leb b'A' r && leb r b'Z') || r == b'_'

abbrev label_rest : Text → Bool
label_rest [] = true
label_rest (r ∷ s) = (is_letter r || leb b'0' r && leb r b'9') && label_rest s

-- The first character is no digit.
unfoldable pub valid_label_name : Text → Bool
valid_label_name [] = false
valid_label_name (r ∷ s) = is_letter r && label_rest s
