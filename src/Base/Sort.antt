-- ===== src/Base/Sort.antt =====
-- `sort.SliceStable`: insertion sort by a strict test `less`.
use mathlib.Core.Path.{◌≡◌}
use mathlib.Core.Bool.{Bool, true, false}
use mathlib.Core.List.{List, [], ◌∷◌, Perm}
use mathlib.Core.List.Perm
use Prim.Native.Nat.{ℕ, ◌≤◌}
use native.Mathlib.Omega.{arith}
use mathlib.Core.Logic.{inl, inr}
use systemd_transition_expor.Base.Tests.{if◌then◌else◌, Bool-cases}
use systemd_transition_expor.Base.Lists.{All}

module _ {ℓ} {A : Type ℓ} (less : A → A → Bool) where
  -- `x` stands before what it does not exceed, so equal elements keep their order.
  unfoldable pub place : A → List A → List A
  place x [] = x ∷ []
  place x (y ∷ ys) = if less y x then y ∷ place x ys else x ∷ y ∷ ys

  unfoldable pub sort_stable : List A → List A
  unfolding place
  sort_stable [] = []
  sort_stable (x ∷ xs) = place x (sort_stable xs)

  place-perm : (x : A) (ys : List A) → Perm (place x ys) (x ∷ ys)
  unfolding place
  place-perm x [] = Perm.refl (x ∷ [])
  place-perm x (y ∷ ys) = elim (Bool-cases (less y x)) [
    | inl h ↦ rw h (Perm.trans (Perm.cons y (place-perm x ys)) (Perm.swap x y ys))
    | inr h ↦ rw h (Perm.refl (x ∷ y ∷ ys))
  ]

  pub sort_stable-perm : (xs : List A) → Perm (sort_stable xs) xs
  unfolding sort_stable
  sort_stable-perm [] = Perm.refl []
  sort_stable-perm (x ∷ xs) =
      Perm.trans (place-perm x (sort_stable xs)) (Perm.cons x (sort_stable-perm xs))

  -- A predicate on all elements does not see the order.
  pub All-place : (P : A → Type 0) (x : A) (ys : List A) → P x → All P ys → All P (place x ys)
  unfolding place
  All-place P x [] h hs = (h, tt)
  All-place P x (y ∷ ys) h hs = elim (Bool-cases (less y x)) [
    | inl e ↦ rw e (hs.0, All-place P x ys h hs.1)
    | inr e ↦ rw e (h, hs)
  ]

  pub All-sort_stable : (P : A → Type 0) (xs : List A) → All P xs → All P (sort_stable xs)
  unfolding sort_stable
  All-sort_stable P [] h = tt
  All-sort_stable P (x ∷ xs) h = All-place P x (sort_stable xs) h.0 (All-sort_stable P xs h.1)

  -- A predicate that holds of all elements afterwards held before.
  All-place_inv : (P : A → Type 0) (x : A) (ys : List A) → All P (place x ys) → P x × All P ys
  unfolding place
  All-place_inv P x [] h = h
  All-place_inv P x (y ∷ ys) h = elim (Bool-cases (less y x)) [
    | inl e ↦
        let h' : P y × All P (place x ys) = rw e at h in
        let r = All-place_inv P x ys h'.1 in (r.0, (h'.0, r.1))
    | inr e ↦ let h' : P x × (P y × All P ys) = rw e at h in h'
  ]

  pub All-sort_stable_inv : (P : A → Type 0) (xs : List A) → All P (sort_stable xs) → All P xs
  unfolding sort_stable
  All-sort_stable_inv P [] h = tt
  All-sort_stable_inv P (x ∷ xs) h =
      let r = All-place_inv P x (sort_stable xs) h in (r.0, All-sort_stable_inv P xs r.1)

-- Ascending by a numeric key.
abbrev pub IsSortedBy {ℓ} : {A : Type ℓ} → (A → ℕ) → List A → Type 0
IsSortedBy key [] = Unit
IsSortedBy key (x ∷ xs) = All (λ y. key x ≤ key y) xs × IsSortedBy key xs

All-le_trans {ℓ} :
    {A : Type ℓ} (key : A → ℕ) (a b : ℕ) (xs : List A)
    → a ≤ b
    → All (λ y. b ≤ key y) xs
    → All (λ y. a ≤ key y) xs
All-le_trans key a b [] h hs = tt
All-le_trans key a b (x ∷ xs) h hs = (omega (arith, hs.0), All-le_trans key a b xs h hs.1)

module _ {A : Type 0} (less : A → A → Bool) (key : A → ℕ)
    (below : (x y : A) → less x y ≡ true → key x ≤ key y)
    (above : (x y : A) → less x y ≡ false → key y ≤ key x) where
  place-IsSortedBy : (x : A) (ys : List A) → IsSortedBy key ys → IsSortedBy key (place less x ys)
  unfolding place
  place-IsSortedBy x [] h = (tt, tt)
  place-IsSortedBy x (y ∷ ys) h = elim (Bool-cases (less y x)) [
    | inl e ↦
        rw e (All-place less (λ z. key y ≤ key z) x ys (below y x e) h.0, place-IsSortedBy x ys h.1)
    | inr e ↦
        rw e ((above y x e, All-le_trans key (key x) (key y) ys (above y x e) h.0), (h.0, h.1))
  ]

  pub sort_stable-IsSortedBy : (xs : List A) → IsSortedBy key (sort_stable less xs)
  unfolding sort_stable
  sort_stable-IsSortedBy [] = tt
  sort_stable-IsSortedBy (x ∷ xs) =
      place-IsSortedBy x (sort_stable less xs) (sort_stable-IsSortedBy xs)
