-- ===== src/Metrics/Label.antt =====
-- promLabel of internal/metrics/metrics.go, and the reading of a label in the text format.
use systemd_transition_expor.Base.{
  ℕ, ◌≡◌, refl, ap, true, false, Option, none, some, [], ◌∷◌, ◌++◌, if◌then◌else◌, ◌==◌, Bool-cases,
  inl, inr, arith,
}
use mathlib.Core.List.{append_assoc}
use systemd_transition_expor.Base.Text.{Text}

-- `strings.ReplaceAll` of one character by two.
unfoldable pub replace_all : ℕ → ℕ → ℕ → Text → Text
replace_all c x y [] = []
replace_all c x y (d ∷ s) =
    let rest = replace_all c x y s in if d == c then x ∷ y ∷ rest else d ∷ rest

abbrev pub backslash : ℕ
backslash = 92

abbrev pub quote : ℕ
quote = 34

unfoldable pub escaped : Text → Text
unfolding replace_all
escaped v =
    replace_all 10 backslash b'n'
      (replace_all quote backslash quote (replace_all backslash backslash backslash v))

unfoldable pub prom_label : Text → Text
unfolding escaped
prom_label v = quote ∷ (escaped v ++ quote ∷ [])

-- The format: between quotes, a backslash stands before a backslash, a quote or the letter n, which
-- is a newline. A newline itself does not stand there.
abbrev meant : ℕ → ℕ
meant c = if c == b'n' then 10 else c

abbrev then_read : ℕ → Option (Text × Text) → Option (Text × Text)
then_read c none = none
then_read c (some (value, rest)) = some (c ∷ value, rest)

unfoldable pub read_value : Text → Option (Text × Text)
read_value [] = none
read_value (c ∷ []) = if c == quote then some ([], []) else none
read_value (c ∷ d ∷ s) =
    let after = read_value s in
    let next = read_value (d ∷ s) in
    if c == 10
    then none
    else if c == quote
    then some ([], d ∷ s)
    else if c == backslash
    then then_read (meant d) after
    else then_read c next

abbrev pub read_label : Text → Option (Text × Text)
read_label [] = none
read_label (c ∷ s) = if c == quote then read_value s else none

-- What one character is written as.
abbrev written : ℕ → Text
written c =
    if c == backslash
    then backslash ∷ backslash ∷ []
    else if c == quote
    then backslash ∷ quote ∷ []
    else if c == 10
    then backslash ∷ b'n' ∷ []
    else c ∷ []

escaped-cons : (c : ℕ) (v : Text) → escaped (c ∷ v) ≡ written c ++ escaped v
unfolding escaped replace_all
escaped-cons c v = elim (Bool-cases (c == backslash)) [
  | inl e ↦ rw e refl
  | inr e ↦ elim (Bool-cases (c == quote)) [
    | inl k ↦ rw (e, k) refl
    | inr k ↦ elim (Bool-cases (c == 10)) [ inl m ↦ rw (e, k, m) refl | inr m ↦ rw (e, k, m) refl ]
  ]
]

same : (a b : ℕ) → (a == b) ≡ true → b ≡ a
same a b h = ground arith

read_value-plain :
    (c : ℕ) (t : Text)
    → (c == quote) ≡ false
    → (c == backslash) ≡ false
    → (c == 10) ≡ false
    → read_value (c ∷ t) ≡ then_read c (read_value t)
unfolding read_value
read_value-plain c [] h k n = rw h refl
read_value-plain c (d ∷ s) h k n = rw (n, h, k) refl

read_value-written : (c : ℕ) (t : Text) → read_value (written c ++ t) ≡ then_read c (read_value t)
unfolding read_value
read_value-written c t = elim (Bool-cases (c == backslash)) [
  | inl e ↦ rw e (ap (λ d. then_read d (read_value t)) (same c backslash e))
  | inr e ↦ elim (Bool-cases (c == quote)) [
    | inl k ↦ rw (e, k) (ap (λ d. then_read d (read_value t)) (same c quote k))
    | inr k ↦ elim (Bool-cases (c == 10)) [
      | inl m ↦ rw (e, k, m) (ap (λ d. then_read d (read_value t)) (same c 10 m))
      | inr m ↦ rw (e, k, m) (read_value-plain c t k e m)
    ]
  ]
]

read_value-end : (rest : Text) → read_value (quote ∷ rest) ≡ some ([], rest)
unfolding read_value
read_value-end [] = refl
read_value-end (d ∷ s) = refl

read_value-empty : (rest : Text) → read_value (escaped [] ++ quote ∷ rest) ≡ some ([], rest)
unfolding escaped replace_all
read_value-empty rest = read_value-end rest

read_value-escaped : (v rest : Text) → read_value (escaped v ++ quote ∷ rest) ≡ some (v, rest)
read_value-escaped [] rest = read_value-empty rest
read_value-escaped (c ∷ v) rest =
    rw
      (
        escaped-cons c v,
        append_assoc (written c) (escaped v) (quote ∷ rest),
        read_value-written c (escaped v ++ quote ∷ rest),
        read_value-escaped v rest,
      )
      refl

-- Whatever a value holds, the text format reads the label that is written for it as the value, and
-- goes on with what follows the label.
pub read_label-prom_label : (v rest : Text) → read_label (prom_label v ++ rest) ≡ some (v, rest)
unfolding prom_label
read_label-prom_label v rest =
    rw (append_assoc (escaped v) (quote ∷ []) rest) (read_value-escaped v rest)
