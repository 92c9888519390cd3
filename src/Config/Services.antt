-- ===== src/Config/Services.antt =====
-- Load of internal/config/config.go: the services of a configuration that it accepts.
use systemd_transition_expor.Base.{
  ℕ, suc, ◌≡◌, ◌+◌, ◌⊎◌, refl, ap, sym, ◌∙◌, Bool, true, false, not, ◌||◌, Option, none, some, List,
  [], ◌∷◌, if◌then◌else◌, All, inl, inr, ltb,
}
use systemd_transition_expor.Base.Text.{Text, is_empty}
use systemd_transition_expor.Config.Target.{
  le_zero, is_zero, Service, contains_any, parse_probe_target,
}
use systemd_transition_expor.Config.Settings.{
  Config, RemoteWriteConfig, no_services, Loaded, rejected, accepted, interval_without_target,
  no_interval, unnamed_service, duplicate_service, many_targets, seen_in, Kind, no_kind, sip_kind,
  dns_kind, agw_kind, kind_of, target_of, scheme_of, set_target, found_target, count_one,
}
use systemd_transition_expor.Config.Passed.{passed, neither, Distinct, Fresh, Fresh-cons}
use systemd_transition_expor.Config.Ports.{AtPort, parse_probe_target-AtPort}
use systemd_transition_expor.Config.Load.{
  check_probe, check_service, check_services, after_service, with_services, with_remote_write, load,
  load_decoded, units, names_of, with_server_defaults, check_remote_write,
}

abbrev pub IsNamed : Service → Type 0
IsNamed s = (is_empty (s.name) ≡ false) × (contains_any (s.name) (32 ∷ 9 ∷ []) ≡ false)

abbrev pub targets : Service → List Text
targets s = s.sip ∷ s.dns ∷ s.agw ∷ []

abbrev pub only : Kind → Text → List Text
only no_kind uri = [] ∷ [] ∷ [] ∷ []
only sip_kind uri = uri ∷ [] ∷ [] ∷ []
only dns_kind uri = [] ∷ uri ∷ [] ∷ []
only agw_kind uri = [] ∷ [] ∷ uri ∷ []

abbrev pub is_probe : Kind → Bool
is_probe no_kind = false
is_probe kind = true

module _ (split : Text → Option (Text × Text)) (join : Text → Text → Text) where
  -- No target and no interval, or one target at a host and a port, and a positive interval.
  abbrev pub IsPlain : Service → Type 0
  IsPlain s = (targets s ≡ only no_kind []) × (is_zero (s.interval) ≡ true)

  abbrev pub IsProbed : Service → Type 0
  IsProbed s =
      (kind : Kind) × (uri : Text) × ((is_probe kind ≡ true)
        × (le_zero (s.interval) ≡ false)
        × AtPort split join (scheme_of kind) (uri, s.addr)
        × (targets s ≡ only kind uri))

  found_target-IsProbed :
      (i : ℕ) (kind : Kind) (o : Option (Text × Text)) (s out : Service)
      → is_probe kind ≡ true
      → le_zero (s.interval) ≡ false
      → targets s ≡ only kind (target_of kind s)
      → ((uri addr : Text) → o ≡ some (uri, addr) → AtPort split join (scheme_of kind) (uri, addr))
      → found_target i kind o s ≡ accepted out
      → (out.name ≡ s.name) × IsProbed out
  found_target-IsProbed i kind none s out p l t at h = absurd (cc)
  found_target-IsProbed i no_kind (some (uri, addr)) s out p l t at h = absurd (cc)
  found_target-IsProbed i sip_kind (some (uri, addr)) s out p l t at h =
      let e : out ≡ set_target sip_kind (uri, addr) s = cc in
      rw e (refl, (sip_kind, uri, (refl, l, at uri addr refl, cc)))
  found_target-IsProbed i dns_kind (some (uri, addr)) s out p l t at h =
      let e : out ≡ set_target dns_kind (uri, addr) s = cc in
      rw e (refl, (dns_kind, uri, (refl, l, at uri addr refl, cc)))
  found_target-IsProbed i agw_kind (some (uri, addr)) s out p l t at h =
      let e : out ≡ set_target agw_kind (uri, addr) s = cc in
      rw e (refl, (agw_kind, uri, (refl, l, at uri addr refl, cc)))

  not-false : (b : Bool) → not b ≡ false → b ≡ true
  not-false true h = refl
  not-false false h = cc

  probed :
      (i : ℕ) (kind : Kind) (s out : Service)
      → is_probe kind ≡ true
      → targets s ≡ only kind (target_of kind s)
      → (if le_zero (s.interval)
          then rejected (no_interval i)
          else found_target i kind
              (parse_probe_target split join (target_of kind s) (scheme_of kind))
              s)
        ≡ accepted out
      → (out.name ≡ s.name) × (IsPlain out ⊎ IsProbed out)
  probed i kind s out p t h =
      let found = parse_probe_target split join (target_of kind s) (scheme_of kind) in
      let k = passed (le_zero (s.interval)) (no_interval i) (found_target i kind found s) out h in
      let r =
        found_target-IsProbed i kind found s out p k.0 t
          (λ uri addr e.
            parse_probe_target-AtPort split join (target_of kind s) (scheme_of kind) uri addr e)
          k.1 in
      (r.0, inr r.1)

  check_probe-valid :
      (i : ℕ) (kind : Kind) (s out : Service)
      → targets s ≡ only kind (target_of kind s)
      → check_probe split join i kind s ≡ accepted out
      → (out.name ≡ s.name) × (IsPlain out ⊎ IsProbed out)
  check_probe-valid i no_kind s out t h =
      let k = passed (not (is_zero (s.interval))) (interval_without_target i) (accepted s) out h in
      let e : out ≡ s = cc in rw e (refl, inl (t, not-false (is_zero (s.interval)) k.0))
  check_probe-valid i sip_kind s out t h = probed i sip_kind s out refl t h
  check_probe-valid i dns_kind s out t h = probed i dns_kind s out refl t h
  check_probe-valid i agw_kind s out t h = probed i agw_kind s out refl t h

  abbrev pub IsValid : Service → Type 0
  IsValid s = IsNamed s × (IsPlain s ⊎ IsProbed s)

  kind_of-only :
      (s : Service)
      → ltb 1 (count_one (s.sip) + count_one (s.dns) + count_one (s.agw)) ≡ false
      → targets s ≡ only (kind_of s) (target_of (kind_of s) s)
  unfolding kind_of
  kind_of-only s h = by_texts (s.sip) (s.dns) (s.agw) h
    where
      by_texts :
          (a b c : Text)
          → ltb 1 (count_one a + count_one b + count_one c) ≡ false
          → let t = record s { sip = a; dns = b; agw = c } in
            targets t ≡ only (kind_of t) (target_of (kind_of t) t)
      by_texts [] [] [] h = refl
      by_texts [] [] (x ∷ c) h = refl
      by_texts [] (x ∷ b) [] h = refl
      by_texts [] (x ∷ b) (y ∷ c) h = absurd (cc)
      by_texts (x ∷ a) [] [] h = refl
      by_texts (x ∷ a) [] (y ∷ c) h = absurd (cc)
      by_texts (x ∷ a) (y ∷ b) [] h = absurd (cc)
      by_texts (x ∷ a) (y ∷ b) (z ∷ c) h = absurd (cc)

  check_service-IsValid :
      (i : ℕ) (seen : List Text) (s out : Service)
      → check_service split join i seen s ≡ accepted out
      → (out.name ≡ s.name) × (seen_in (s.name) seen ≡ false) × IsValid out
  unfolding check_service
  check_service-IsValid i seen s out h =
      let last = check_probe split join i (kind_of s) s in
      let many = ltb 1 (count_one (s.sip) + count_one (s.dns) + count_one (s.agw)) in
      let third = if many then rejected (many_targets i) else last in
      let unnamed = is_empty (s.name) || contains_any (s.name) (32 ∷ 9 ∷ []) in
      let a =
        passed unnamed (unnamed_service i)
          (if seen_in (s.name) seen then rejected duplicate_service else third) out h in
      let b = passed (seen_in (s.name) seen) duplicate_service third out a.1 in
      let c = passed many (many_targets i) last out b.1 in
      let d = check_probe-valid i (kind_of s) s out (kind_of-only s c.0) c.1 in
      (
        d.0,
        b.0,
        (rw (d.0) (neither (is_empty (s.name)) (contains_any (s.name) (32 ∷ 9 ∷ [])) a.0), d.1),
      )

  after_service-parts :
      (o : Loaded Service) (r : Loaded (List Service)) (out : List Service)
      → after_service o r ≡ accepted out
      → (s : Service) × (rest : List Service) × ((o ≡ accepted s)
          × (r ≡ accepted rest)
          × (out ≡ s ∷ rest))
  after_service-parts (rejected p) r out h = absurd (cc)
  after_service-parts (accepted s) (rejected p) out h = absurd (cc)
  after_service-parts (accepted s) (accepted rest) out h = (s, rest, (refl, refl, cc))

  check_services-IsValid :
      (i : ℕ) (seen : List Text) (ss out : List Service)
      → check_services split join i seen ss ≡ accepted out
      → (is_empty out ≡ is_empty ss)
        × Fresh seen (names_of out)
        × Distinct (names_of out)
        × All IsValid out
  unfolding check_services
  check_services-IsValid i seen [] out h = let e : out ≡ [] = cc in rw e (refl, tt, tt, tt)
  check_services-IsValid i seen (s ∷ ss) out h =
      let parts =
        after_service-parts (check_service split join i seen s)
          (check_services split join (suc i) (s.name ∷ seen) ss) out h in
      let first = check_service-IsValid i seen s parts.0 parts.2.0 in
      let rest = check_services-IsValid (suc i) (s.name ∷ seen) ss parts.1 parts.2.1 in
      let apart = Fresh-cons (s.name) seen (names_of parts.1) rest.1 in
      rw (parts.2.2) (
        refl,
        (rw (first.0) (first.1), apart.0),
        (rw (first.0) (apart.1), rest.2),
        (first.2, rest.3),
      )

with_remote_write-parts :
    (d : Config) (o : Loaded RemoteWriteConfig) (c : Config)
    → with_remote_write d o ≡ accepted c
    → (c.services ≡ d.services) × (o ≡ accepted (c.remote_write))
with_remote_write-parts d (rejected p) c h = absurd (cc)
with_remote_write-parts d (accepted r) c h =
    let e : record d { remote_write = r } ≡ c = cc in rw (← e) (refl, refl)

pub with_services-parts :
    (sum : Text → Text) (d : Config) (o : Loaded (List Service)) (c : Config)
    → with_services sum d o ≡ accepted c
    → (o ≡ accepted (c.services))
      × (check_remote_write sum (d.remote_write) ≡ accepted (c.remote_write))
with_services-parts sum d (rejected p) c h = absurd (cc)
with_services-parts sum d (accepted ss) c h =
    let k =
      with_remote_write-parts (record d { services = ss }) (check_remote_write sum (d.remote_write))
        c h in
    (ap accepted (sym k.0), k.1)

-- A configuration that Load accepts has at least one service; every service has a name without a
-- space or a tab, which no other has, and either no target of a probe and no interval, or one
-- target, at a host that is not empty and a port between 1 and 65535, and a positive interval.
pub load-IsValid :
    (split : Text → Option (Text × Text)) (join : Text → Text → Text) (sum : Text → Text)
    (unmarshal : Text → Option Config) (file : Option Text) (c : Config)
    → load split join sum unmarshal file ≡ accepted c
    → (is_empty (c.services) ≡ false) × Distinct (units c) × All (IsValid split join) (c.services)
unfolding load units
load-IsValid split join sum unmarshal none c h = absurd (cc)
load-IsValid split join sum unmarshal (some bytes) c h = decoded (unmarshal bytes) h
  where
    decoded :
        (o : Option Config)
        → load_decoded split join sum o ≡ accepted c
        → (is_empty (c.services) ≡ false)
          × Distinct (names_of (c.services))
          × All (IsValid split join) (c.services)
    decoded none h = absurd (cc)
    decoded (some d) h =
        let w = with_server_defaults d in
        let k =
          passed (is_empty (w.services)) no_services
            (with_services sum w (check_services split join 0 [] (w.services))) c h in
        let parts = with_services-parts sum w (check_services split join 0 [] (w.services)) c k.1 in
        let v = check_services-IsValid split join 0 [] (w.services) (c.services) parts.0 in
        (v.0 ∙ k.0, v.2, v.3)
