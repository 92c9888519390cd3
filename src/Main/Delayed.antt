-- ===== src/Main/Delayed.antt =====
-- The names that main.go hands to the engine's DelayUpUntilReady, and the probes.
use systemd_transition_expor.Base.{
  ◌≡◌, ◌∙◌, refl, ap, Bool, true, false, not, ◌||◌, Option, none, some, List, [], ◌∷◌, ◌++◌, map,
  All, filter_by, if◌then◌else◌, Bool-cases, inl, inr,
}
use mathlib.Core.List.{append_assoc}
use systemd_transition_expor.Base.Text.{Text, is_empty, text_eq}
use systemd_transition_expor.Config.Target.{Service}
use systemd_transition_expor.Main.Addresses.{OnHost, local_ips-OnHost}
use systemd_transition_expor.Config.Settings.{Kind, sip_kind, dns_kind, agw_kind, no_kind, seen_in}
use systemd_transition_expor.Main.Start.{
  ProbeSpec, Chosen, probe_kind, target_for, spec, put, require_local, chosen_with, choose_probes,
  delayed, choose_local, local_ips, Addr, ip_is_local, host_is_local,
}

abbrev pub names : List ProbeSpec → List Text
names ps = map (λ p. p.service) ps

abbrev pub probes_of : Chosen → List ProbeSpec
probes_of c = c.sip ++ (c.dns ++ c.agw)

abbrev pub has_target : Service → Bool
has_target s = not (is_empty (s.sip)) || (not (is_empty (s.dns)) || not (is_empty (s.agw)))

or_swap : (a b c : Bool) → (a || (b || c)) ≡ (b || (a || c))
or_swap true true c = refl
or_swap true false c = refl
or_swap false true c = refl
or_swap false false c = refl

seen_in-inserted :
    (n : Text) (xs ys : List ProbeSpec) (p : ProbeSpec)
    → seen_in n (names (xs ++ p ∷ ys)) ≡ (text_eq n (p.service) || seen_in n (names (xs ++ ys)))
seen_in-inserted n [] ys p = refl
seen_in-inserted n (x ∷ xs) ys p =
    ap (λ b. text_eq n (x.service) || b) (seen_in-inserted n xs ys p)
    ∙ or_swap (text_eq n (x.service)) (text_eq n (p.service)) (seen_in n (names (xs ++ ys)))

All-inserted :
    (P : ProbeSpec → Type 0) (xs ys : List ProbeSpec) (p : ProbeSpec)
    → P p
    → All P (xs ++ ys)
    → All P (xs ++ p ∷ ys)
All-inserted P [] ys p h k = (h, k)
All-inserted P (x ∷ xs) ys p h k = (k.0, All-inserted P xs ys p h k.1)

put-seen_in :
    (n : Text) (kind : Kind) (p : ProbeSpec) (c : Chosen)
    → seen_in n (delayed (put kind p c)) ≡ (text_eq n (p.service) || seen_in n (delayed c))
unfolding delayed
put-seen_in n sip_kind p c = refl
put-seen_in n no_kind p c = refl
put-seen_in n dns_kind p c = seen_in-inserted n (c.sip) (c.dns ++ c.agw) p
put-seen_in n agw_kind p c =
    rw (← append_assoc (c.sip) (c.dns) (p ∷ c.agw), ← append_assoc (c.sip) (c.dns) (c.agw))
      (seen_in-inserted n (c.sip ++ c.dns) (c.agw) p)

put-All :
    (P : ProbeSpec → Type 0) (kind : Kind) (p : ProbeSpec) (c : Chosen)
    → P p
    → All P (probes_of c)
    → All P (probes_of (put kind p c))
put-All P sip_kind p c h k = (h, k)
put-All P no_kind p c h k = (h, k)
put-All P dns_kind p c h k = All-inserted P (c.sip) (c.dns ++ c.agw) p h k
put-All P agw_kind p c h k =
    rw (← append_assoc (c.sip) (c.dns) (p ∷ c.agw))
      (All-inserted P (c.sip ++ c.dns) (c.agw) p h (rw (append_assoc (c.sip) (c.dns) (c.agw)) k))

target_for-has_target : (s : Service) → has_target s ≡ not (is_empty (target_for (probe_kind s) s))
unfolding probe_kind
target_for-has_target s = by_texts (s.sip) (s.dns) (s.agw)
  where
    by_texts :
        (a b c : Text)
        → let t = record s { sip = a; dns = b; agw = c } in
          has_target t ≡ not (is_empty (target_for (probe_kind t) t))
    by_texts [] [] [] = refl
    by_texts [] [] (x ∷ c) = refl
    by_texts [] (x ∷ b) c = refl
    by_texts (x ∷ a) [] [] = refl
    by_texts (x ∷ a) [] (y ∷ c) = refl
    by_texts (x ∷ a) (y ∷ b) c = refl

module _ {A : Type 0} (split : Text → Option (Text × Text)) (parse_ip : Text → Option A)
    (equal : A → A → Bool) (interfaces : List (Option (List (Addr A)))) where
  -- What main takes for the addresses of the host.
  abbrev found : Option (List A)
  found = local_ips split parse_ip equal (some interfaces)

  -- The address names a host and a port; the host is an IP, which equals that of an address of one
  -- of the interfaces.
  abbrev pub IsLocal : ProbeSpec → Type 0
  IsLocal p =
      (host : Text) × (port : Text) × (ip : A) × (x : A) × ((split (p.addr) ≡ some (host, port))
        × (parse_ip host ≡ some ip)
        × OnHost x interfaces
        × (equal x ip ≡ true))

  abbrev pub Agrees : List Service → Chosen → Text → Type 0
  Agrees services c n =
      All IsLocal (probes_of c)
      × (seen_in n (delayed c) ≡ seen_in n (map (λ s. s.name) (filter_by has_target services)))

  -- An address that passes the test of `RequireLocalAddress` is local.
  require_local-IsLocal :
      (ips : List A) (p : ProbeSpec)
      → found ≡ some ips
      → require_local split parse_ip equal (p.addr) ips ≡ true
      → IsLocal p
  unfolding require_local
  require_local-IsLocal ips p f h = at_host (split (p.addr)) refl h
    where
      at_ip :
          (host port : Text) (o : Option A)
          → split (p.addr) ≡ some (host, port)
          → parse_ip host ≡ o
          → ip_is_local split parse_ip equal o ips ≡ true
          → IsLocal p
      at_ip host port none e k h = absurd (cc)
      at_ip host port (some ip) e k h =
          let (x, (on, same)) = local_ips-OnHost split parse_ip equal interfaces ip ips f h in
          (host, port, ip, x, (e, k, on, same))

      at_host :
          (o : Option (Text × Text))
          → split (p.addr) ≡ o
          → host_is_local split parse_ip equal o ips ≡ true
          → IsLocal p
      at_host none e h = absurd (cc)
      at_host (some (host, port)) e h = at_ip host port (parse_ip host) e refl h

  chosen_with-Agrees :
      (s : Service) (services : List Service) (kind : Kind) (o : Option Chosen) (c : Chosen)
      (n : Text)
      → has_target s ≡ true
      → IsLocal (spec kind s)
      → ((d : Chosen) → o ≡ some d → Agrees services d n)
      → chosen_with split parse_ip equal kind s o ≡ some c
      → Agrees (s ∷ services) c n
  chosen_with-Agrees s services kind none c n t l ih h = absurd (cc)
  chosen_with-Agrees s services kind (some d) c n t l ih h =
      let e : put kind (spec kind s) d ≡ c = cc in
      let r = ih d refl in
      rw (← e, t)
        (
          put-All IsLocal kind (spec kind s) d l r.0,
          put-seen_in n kind (spec kind s) d ∙ ap (λ b. text_eq n (s.name) || b) r.1,
        )

  choose_probes-Agrees :
      (services : List Service) (c : Chosen) (n : Text)
      → choose_probes split parse_ip equal found services ≡ some c
      → Agrees services c n
  unfolding choose_probes delayed
  choose_probes-Agrees [] c n h =
      let e : record { sip = []; dns = []; agw = [] } ≡ c = cc in rw (← e) (tt, refl)
  choose_probes-Agrees (s ∷ services) c n h =
      elim (Bool-cases (is_empty (target_for (probe_kind s) s))) [
        | inl e ↦ rw (target_for-has_target s, e) (choose_probes-Agrees services c n (rw e at h))
        | inr e ↦ with_ips e (λ d q. choose_probes-Agrees services d n q) found refl (rw e at h)
      ]
    where
      rest : Option Chosen
      rest = choose_probes split parse_ip equal found services

      tested :
          (ips : List A) (b : Bool)
          → ((d : Chosen) → rest ≡ some d → Agrees services d n)
          → is_empty (target_for (probe_kind s) s) ≡ false
          → found ≡ some ips
          → require_local split parse_ip equal (s.addr) ips ≡ b
          → (if b then chosen_with split parse_ip equal (probe_kind s) s rest else none) ≡ some c
          → Agrees (s ∷ services) c n
      tested ips false ih e f k h = absurd (cc)
      tested ips true ih e f k h =
          chosen_with-Agrees s services (probe_kind s) rest c n (target_for-has_target s ∙ ap not e)
            (require_local-IsLocal ips (spec (probe_kind s) s) f k) ih h

      with_ips :
          is_empty (target_for (probe_kind s) s) ≡ false
          → ((d : Chosen) → rest ≡ some d → Agrees services d n)
          → (o : Option (List A)) → found ≡ o
          → choose_local split parse_ip equal s o rest ≡ some c
          → Agrees (s ∷ services) c n
      with_ips e ih none f h = absurd (cc)
      with_ips e ih (some ips) f h =
          tested ips (require_local split parse_ip equal (s.addr) ips) ih e f refl h

-- Where the start of main chooses the probes of the services of a configuration, the address of
-- each splits into a host and a port, and the host is an IP that equals that of an address of one of
-- the interfaces; and a name is among those whose UP waits for a probe exactly if it is that of a
-- service with a target.
pub choose_probes-delayed :
    {A : Type 0} (split : Text → Option (Text × Text)) (parse_ip : Text → Option A)
    (equal : A → A → Bool) (interfaces : List (Option (List (Addr A)))) (services : List Service)
    (c : Chosen) (n : Text)
    → choose_probes split parse_ip equal (local_ips split parse_ip equal (some interfaces)) services
      ≡ some c
    → All (IsLocal split parse_ip equal interfaces) (probes_of c)
      × (seen_in n (delayed c) ≡ seen_in n (map (λ s. s.name) (filter_by has_target services)))
choose_probes-delayed split parse_ip equal interfaces services c n h =
    choose_probes-Agrees split parse_ip equal interfaces services c n h
