-- ===== src/Main/Addresses.antt =====
-- LocalIPs of internal/sip/local.go: the addresses that the interfaces of the host carry.
use systemd_transition_expor.Base.{
  ◌≡◌, refl, true, false, ◌||◌, ◌⊎◌, inl, inr, Option, none, some, List, [], ◌∷◌, Bool,
}
use systemd_transition_expor.Base.Text.{Text}
use systemd_transition_expor.Main.Start.{
  Addr, ip_net, ip_addr, other_addr, ips_of, with_interface, local_ips, is_local, addr_ip,
}

-- One of the addresses has the IP.
abbrev pub Carried : {A : Type 0} → A → List (Addr A) → Type 0
Carried x [] = ⊥
Carried x (a ∷ addrs) = (a ≡ ip_net (some x)) ⊎ (a ≡ ip_addr (some x)) ⊎ Carried x addrs

-- One of the interfaces has an address with the IP.
abbrev pub OnHost : {A : Type 0} → A → List (Option (List (Addr A))) → Type 0
OnHost x [] = ⊥
OnHost x (none ∷ interfaces) = OnHost x interfaces
OnHost x (some addrs ∷ interfaces) = Carried x addrs ⊎ OnHost x interfaces

module _ {A : Type 0} (split_host_port : Text → Option (Text × Text)) (parse_ip : Text → Option A)
    (equal : A → A → Bool) where
  either_true : (a b : Bool) → (a || b) ≡ true → (a ≡ true) ⊎ (b ≡ true)
  either_true true b h = inl refl
  either_true false b h = inr h

  -- What the test finds in the list is one of these addresses or was in the list before.
  abbrev Found : A → List (Addr A) → List A → Type 0
  Found ip addrs ips =
      ((x : A) × (Carried x addrs × (equal x ip ≡ true)))
      ⊎ (is_local split_host_port parse_ip equal ip ips ≡ true)

  Found-later :
      (ip : A) (a : Addr A) (addrs : List (Addr A)) (ips : List A)
      → Found ip addrs ips
      → Found ip (a ∷ addrs) ips
  Found-later ip a addrs ips (inl (x, (at, same))) = inl (x, (inr (inr at), same))
  Found-later ip a addrs ips (inr h) = inr h

  ips_of-Found :
      (ip : A) (addrs : List (Addr A)) (ips : List A)
      → is_local split_host_port parse_ip equal ip (ips_of split_host_port parse_ip equal addrs ips)
        ≡ true
      → Found ip addrs ips
  unfolding addr_ip
  ips_of-Found ip [] ips h = inr h
  ips_of-Found ip (ip_net none ∷ addrs) ips h =
      Found-later ip (ip_net none) addrs ips (ips_of-Found ip addrs ips h)
  ips_of-Found ip (ip_addr none ∷ addrs) ips h =
      Found-later ip (ip_addr none) addrs ips (ips_of-Found ip addrs ips h)
  ips_of-Found ip (other_addr ∷ addrs) ips h =
      Found-later ip other_addr addrs ips (ips_of-Found ip addrs ips h)
  ips_of-Found ip (ip_net (some x) ∷ addrs) ips h = elim (either_true _ _ h) [
    | inl same ↦ inl (x, (inl refl, same))
    | inr k ↦ Found-later ip (ip_net (some x)) addrs ips (ips_of-Found ip addrs ips k)
  ]
  ips_of-Found ip (ip_addr (some x) ∷ addrs) ips h = elim (either_true _ _ h) [
    | inl same ↦ inl (x, (inr (inl refl), same))
    | inr k ↦ Found-later ip (ip_addr (some x)) addrs ips (ips_of-Found ip addrs ips k)
  ]

  -- An IP that is found among those of LocalIPs equals that of an address of an interface.
  pub local_ips-OnHost :
      (interfaces : List (Option (List (Addr A)))) (ip : A) (ips : List A)
      → local_ips split_host_port parse_ip equal (some interfaces) ≡ some ips
      → is_local split_host_port parse_ip equal ip ips ≡ true
      → (x : A) × (OnHost x interfaces × (equal x ip ≡ true))
  unfolding local_ips
  local_ips-OnHost [] ip [] e h = absurd (cc)
  local_ips-OnHost [] ip (y ∷ ips) e h = absurd (cc)
  local_ips-OnHost (none ∷ interfaces) ip ips e h = absurd (cc)
  local_ips-OnHost (some addrs ∷ interfaces) ip ips e h =
      after (local_ips split_host_port parse_ip equal (some interfaces))
        (λ rest f k. local_ips-OnHost interfaces ip rest f k) refl e
    where
      after :
          (o : Option (List A))
          → ((rest : List A)
              → local_ips split_host_port parse_ip equal (some interfaces) ≡ some rest
              → is_local split_host_port parse_ip equal ip rest ≡ true
              → (x : A) × (OnHost x interfaces × (equal x ip ≡ true)))
          → local_ips split_host_port parse_ip equal (some interfaces) ≡ o
          → with_interface split_host_port parse_ip equal (some addrs) o ≡ some ips
          → (x : A) × (OnHost x (some addrs ∷ interfaces) × (equal x ip ≡ true))
      after none later f e = absurd (cc)
      after (some rest) later f e =
          let same : ips_of split_host_port parse_ip equal addrs rest ≡ ips = cc in
          elim (ips_of-Found ip addrs rest (rw same h)) [
            | inl (x, (at, k)) ↦ (x, (inl at, k))
            | inr k ↦ let (x, (at, l)) = later rest f k in (x, (inr at, l))
          ]
