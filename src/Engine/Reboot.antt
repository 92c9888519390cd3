-- ===== src/Engine/Reboot.antt =====
-- internal/engine/engine.go: `ApplyReboot`, by the services that are visited.
use systemd_transition_expor.Base.{
  ℕ, ◌≡◌, refl, String, Bool, true, false, not, ◌||◌, ◌&&◌, List, [], ◌∷◌, ◌++◌, arith, ◌∙◌, eq_iff,
  str_eq, inl, inr, Bool-cases, is_none, if◌then◌else◌,
}
use systemd_transition_expor.Base.Dict.{lookup, lookup-insert}
use systemd_transition_expor.Model.{is_up, Event}
use systemd_transition_expor.Engine.Lookup.{state_or_zero-insert, state_or_zero-none}
use systemd_transition_expor.Engine.{Engine, member, state_or_zero, reboot_one, apply_reboot}

-- Whether an event of the list names the service.
abbrev pub announces : String → List Event → Bool
announces k [] = false
announces k (x ∷ xs) = str_eq x.service k || announces k xs

announces-append :
    (k : String) (xs ys : List Event) → announces k (xs ++ ys) ≡ (announces k xs || announces k ys)
announces-append k [] ys = refl
announces-append k (x ∷ xs) ys = ground (arith, announces-append k xs ys)

-- Whether the service is up, for the loop.
abbrev pub up_now : Engine → String → Bool
up_now e k = is_up (state_or_zero e k).availability

reboot_one-announces :
    (e : Engine) (j k b : String) (t : ℕ)
    → announces k (reboot_one e j b t).1 ≡ (str_eq j k && up_now e j)
unfolding reboot_one
reboot_one-announces e j k b t = ground (arith, state_or_zero-none e j)

-- What the visit of `j` leaves to be read at `k`.
reboot_one-state :
    (e : Engine) (j k b : String) (t : ℕ)
    → (is_up (state_or_zero (reboot_one e j b t).0 k).availability
        ≡ (not (str_eq j k) && up_now e k))
unfolding reboot_one
reboot_one-state e j k b t = elim (Bool-cases (is_none (lookup j e.states))) [
  | inl c ↦ rw c (ground (arith, state_or_zero-none e j c, eq_iff j k))
  | inr c ↦ elim (Bool-cases (not (up_now e j))) [
    | inl d ↦ rw (c, d) (rw state_or_zero-insert (ground (arith, eq_iff j k)))
    | inr d ↦ rw (c, d) (rw state_or_zero-insert (ground (arith, eq_iff j k)))
  ]
]

-- `ApplyReboot` emits an event of a service exactly if the service is visited and was up.
pub apply_reboot-announces :
    (e : Engine) (order : List String) (b : String) (t : ℕ) (k : String)
    → announces k (apply_reboot e order b t).1 ≡ (member k order && up_now e k)
unfolding apply_reboot member
apply_reboot-announces e [] b t k = refl
apply_reboot-announces e (j ∷ order) b t k =
    let e' = (reboot_one e j b t).0 in
    ground (
      arith,
      announces-append k (reboot_one e j b t).1 (apply_reboot e' order b t).1,
      reboot_one-announces e j k b t,
      reboot_one-state e j k b t,
      apply_reboot-announces e' order b t k,
      eq_iff j k,
    )

abbrev pub known : Engine → String → Bool
known e k = not (is_none (lookup k e.states))

-- What a visit of `j` does to the presence of `k` and to its boot identifier.
reboot_one-known :
    (e : Engine) (j k b : String) (t : ℕ) → known (reboot_one e j b t).0 k ≡ known e k
unfolding reboot_one
reboot_one-known e j k b t = elim (Bool-cases (is_none (lookup j e.states))) [
  | inl c ↦ rw c
  | inr c ↦ elim (Bool-cases (not (up_now e j))) [
    | inl d ↦ rw (c, d) (rw lookup-insert (ground (arith, eq_iff j k)))
    | inr d ↦ rw (c, d) (rw lookup-insert (ground (arith, eq_iff j k)))
  ]
]

reboot_one-boot :
    (e : Engine) (j k b : String) (t : ℕ)
    → (state_or_zero (reboot_one e j b t).0 k).boot_id
      ≡ (if str_eq j k && known e j then b else (state_or_zero e k).boot_id)
unfolding reboot_one
reboot_one-boot e j k b t = elim (Bool-cases (is_none (lookup j e.states))) [
  | inl c ↦ rw c (ground (arith, eq_iff j k))
  | inr c ↦ elim (Bool-cases (not (up_now e j))) [
    | inl d ↦ rw (c, d) (rw state_or_zero-insert (ground (arith, eq_iff j k)))
    | inr d ↦ rw (c, d) (rw state_or_zero-insert (ground (arith, eq_iff j k)))
  ]
]

-- Once visited, a known service carries the new boot identifier and is not up.
pub record Settled (e : Engine) (k b : String) : Type 0 where
  pub boot : (state_or_zero e k).boot_id ≡ b
  pub not_up : up_now e k ≡ false

Settled-reboot_one :
    (e : Engine) (j k b : String) (t : ℕ) → Settled e k b → Settled (reboot_one e j b t).0 k b
Settled-reboot_one e j k b t h =
    ground (arith, reboot_one-state e j k b t, reboot_one-boot e j k b t)

Settled-apply_reboot :
    (e : Engine) (order : List String) (k b : String) (t : ℕ)
    → Settled e k b
    → Settled (apply_reboot e order b t).0 k b
unfolding apply_reboot
Settled-apply_reboot e [] k b t h = h
Settled-apply_reboot e (j ∷ order) k b t h =
    Settled-apply_reboot (reboot_one e j b t).0 order k b t (Settled-reboot_one e j k b t h)

-- After `ApplyReboot` every service of the map that is visited is down, with the new boot
-- identifier.
apply_reboot-Settled :
    (e : Engine) (order : List String) (k b : String) (t : ℕ)
    → member k order ≡ true
    → known e k ≡ true
    → Settled (apply_reboot e order b t).0 k b
unfolding apply_reboot member
apply_reboot-Settled e [] k b t m h = cc
apply_reboot-Settled e (j ∷ order) k b t m h =
    let e' = (reboot_one e j b t).0 in
    elim (Bool-cases (str_eq j k)) [
      | inl c ↦
          let same = (eq_iff j k).0 c in
          Settled-apply_reboot e' order k b t (record {
            boot = ground (arith, reboot_one-boot e j k b t, same);
            not_up = ground (arith, reboot_one-state e j k b t);
          })
      | inr c ↦ apply_reboot-Settled e' order k b t (ground arith) (reboot_one-known e j k b t ∙ h)
    ]
