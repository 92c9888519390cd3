-- ===== src/Config/Passed.antt =====
-- What the checks of a configuration that pass leave: conditions that failed, and names of which no
-- two are the same.
use systemd_transition_expor.Base.{
  ◌≡◌, ◌∙◌, sym, refl, Bool, true, false, ◌||◌, Option, none, some, List, [], ◌∷◌, if◌then◌else◌,
  All, Bool-cases, inl, inr,
}
use systemd_transition_expor.Base.Text.{Text, text_eq, text_eq→eq, text_eq_refl}
use systemd_transition_expor.Config.Settings.{Problem, Loaded, rejected, accepted, seen_in}

-- What a chain of checks accepts has passed each.
pub passed :
    {A : Type 0} (b : Bool) (p : Problem) (x : Loaded A) (a : A)
    → (if b then rejected p else x) ≡ accepted a
    → (b ≡ false) × (x ≡ accepted a)
passed true p x a h = absurd (cc)
passed false p x a h = (refl, h)

pub neither : (a b : Bool) → (a || b) ≡ false → (a ≡ false) × (b ≡ false)
neither true b h = absurd (cc)
neither false b h = (refl, h)

pub passed_some :
    {A : Type 0} (b : Bool) (x : Option A) (a : A)
    → (if b then none else x) ≡ some a
    → (b ≡ false) × (x ≡ some a)
passed_some true x a h = absurd (cc)
passed_some false x a h = (refl, h)

abbrev pub Distinct : List Text → Type 0
Distinct [] = Unit
Distinct (x ∷ xs) = (seen_in x xs ≡ false) × Distinct xs

seen_in-sym : (a b : Text) → text_eq a b ≡ false → text_eq b a ≡ false
seen_in-sym a b h = elim (Bool-cases (text_eq b a)) [
  | inr e ↦ e
  | inl e ↦
      let same = text_eq→eq b a e in
      let no : text_eq a a ≡ false = rw same at h in absurd (true_false (sym (text_eq_refl a) ∙ no))
]
  where
    true_false : true ≡ false → ⊥
    true_false e = absurd (cc)

abbrev pub Fresh : List Text → List Text → Type 0
Fresh seen names = All (λ n. seen_in n seen ≡ false) names

pub Fresh-cons :
    (name : Text) (seen names : List Text)
    → Fresh (name ∷ seen) names
    → Fresh seen names × (seen_in name names ≡ false)
Fresh-cons name seen [] h = (tt, refl)
Fresh-cons name seen (n ∷ names) h =
    let rest = Fresh-cons name seen names h.1 in
    let both = neither (text_eq n name) (seen_in n seen) h.0 in
    ((both.1, rest.0), rw (seen_in-sym n name both.0, rest.1) refl)
