-- ===== src/Config/Ports.antt =====
-- parseProbeTarget of internal/config/config.go: the host and the port of a target.
use systemd_transition_expor.Base.{
  ℕ, ◌≡◌, refl, true, false, Option, none, some, ◌∷◌, ◌++◌, if◌then◌else◌, Bool-cases, inl, inr,
  length, drop,
}
use systemd_transition_expor.Base.Text.{Text, codes, is_empty, trim_space}
use systemd_transition_expor.Config.Target.{
  atoi, is_port, parse_probe_target, joined_target, checked_target, lacks_prefix, has_more,
}
use systemd_transition_expor.Config.Passed.{passed_some}

module _ (split : Text → Option (Text × Text)) (join : Text → Text → Text) where
  abbrev pub AtPort : Text → Text × Text → Type 0
  AtPort scheme (uri, addr) =
      (host : Text) × (port : Text) × (n : ℕ) × ((is_empty host ≡ false)
        × (atoi port ≡ some n)
        × (is_port n ≡ true)
        × (addr ≡ join host port)
        × (uri ≡ scheme ++ b':' ∷ addr))

  joined-AtPort :
      (scheme host port : Text) (o : Option ℕ) (uri addr : Text)
      → is_empty host ≡ false
      → atoi port ≡ o
      → joined_target split join scheme host port o ≡ some (uri, addr)
      → AtPort scheme (uri, addr)
  joined-AtPort scheme host port none uri addr he e h = absurd (cc)
  joined-AtPort scheme host port (some n) uri addr he e h = elim (Bool-cases (is_port n)) [
    | inr k ↦ let no : none ≡ some (uri, addr) = rw k at h in absurd (cc)
    | inl k ↦
        let same : some (scheme ++ b':' ∷ join host port, join host port) ≡ some (uri, addr) =
          rw k at h in
        let a : addr ≡ join host port = cc in
        let u : scheme ++ b':' ∷ join host port ≡ uri = cc in
        (host, port, n, (he, e, k, a, rw (← u, a) refl))
  ]

  checked-AtPort :
      (scheme : Text) (o : Option (Text × Text)) (uri addr : Text)
      → checked_target split join scheme o ≡ some (uri, addr)
      → AtPort scheme (uri, addr)
  checked-AtPort scheme none uri addr h = absurd (cc)
  checked-AtPort scheme (some (host, port)) uri addr h =
      let k =
        passed_some (is_empty host) (joined_target split join scheme host port (atoi port))
          (uri, addr) h in
      joined-AtPort scheme host port (atoi port) uri addr k.0 refl k.1

  pub parse_probe_target-AtPort :
      (raw scheme uri addr : Text)
      → parse_probe_target split join raw scheme ≡ some (uri, addr)
      → AtPort scheme (uri, addr)
  unfolding parse_probe_target
  parse_probe_target-AtPort raw scheme uri addr h =
      let t = trim_space raw in
      let prefix = scheme ++ codes ":" in
      let rest = drop (length prefix) t in
      let last = checked_target split join scheme (split rest) in
      let first =
        passed_some (lacks_prefix t prefix) (if has_more rest then none else last) (uri, addr) h in
      checked-AtPort scheme (split rest) uri addr
        (passed_some (has_more rest) last (uri, addr) first.1).1
