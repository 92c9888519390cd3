-- ===== src/Base/Text.antt =====
-- The functions of Go's package `strings` and `bytes` that the program calls, over lists of code
-- points (the bytes of a text, if it is ASCII). Space and letter case are those of ASCII.
use Prim.Native.Nat.{ℕ, ◌+◌}
use Prim.Native.Char.{code}
use Prim.Native.String.{String}
use mathlib.Core.Path.{◌≡◌, refl}
use mathlib.Core.Bool.{Bool, true, false, ◌&&◌, ◌||◌}
use mathlib.Core.List.{List, [], ◌∷◌, ◌++◌, map}
use native.Mathlib.Omega.{arith}
use systemd_transition_expor.Base.Tests.{leb, ◌==◌, if◌then◌else◌}

abbrev pub Text : Type 0
Text = List ℕ

-- `String` has its own `[]` and `∷`.
abbrev pub codes : String → Text
codes String.[] = []
codes (String.◌∷◌ c s) = code c ∷ codes s

abbrev pub is_empty {ℓ} : {A : Type ℓ} → List A → Bool
is_empty [] = true
is_empty (c ∷ s) = false

abbrev pub text_eq : Text → Text → Bool
text_eq [] [] = true
text_eq [] (d ∷ t) = false
text_eq (c ∷ s) [] = false
text_eq (c ∷ s) (d ∷ t) = c == d && text_eq s t

-- Tab, newline, vertical tab, form feed, carriage return and the space.
abbrev pub is_space : ℕ → Bool
is_space c = c == 32 || leb 9 c && leb c 13

unfoldable pub trim_left : Text → Text
trim_left [] = []
trim_left (c ∷ s) = let rest = trim_left s in if is_space c then rest else c ∷ s

unfoldable pub trim_right : Text → Text
trim_right [] = []
trim_right (c ∷ s) = let rest = trim_right s in if is_empty rest && is_space c then [] else c ∷ rest

unfoldable pub trim_space : Text → Text
unfolding trim_left trim_right
trim_space s = trim_right (trim_left s)

unfoldable pub lower : ℕ → ℕ
lower c = if leb b'A' c && leb c b'Z' then c + 32 else c

abbrev pub to_lower : Text → Text
to_lower = map lower

-- `strings.ReplaceAll(s, c, "")` for one character.
unfoldable pub remove_all : ℕ → Text → Text
remove_all c [] = []
remove_all c (d ∷ s) = let rest = remove_all c s in if d == c then rest else d ∷ rest

abbrev pub has_prefix : Text → Text → Bool
has_prefix s [] = true
has_prefix [] (d ∷ p) = false
has_prefix (c ∷ s) (d ∷ p) = c == d && has_prefix s p

abbrev pub contains : Text → Text → Bool
contains [] p = is_empty p
contains (c ∷ s) p = has_prefix (c ∷ s) p || contains s p

pub text_eq→eq : (s t : Text) → text_eq s t ≡ true → s ≡ t
text_eq→eq [] [] h = refl
text_eq→eq [] (d ∷ t) h = cc
text_eq→eq (c ∷ s) [] h = cc
text_eq→eq (c ∷ s) (d ∷ t) h = ground (arith, text_eq→eq s t)

pub text_eq_refl : (s : Text) → text_eq s s ≡ true
text_eq_refl [] = refl
text_eq_refl (c ∷ s) = ground (arith, text_eq_refl s)

pub has_prefix-append : (p s : Text) → has_prefix (p ++ s) p ≡ true
has_prefix-append [] [] = refl
has_prefix-append [] (c ∷ s) = refl
has_prefix-append (d ∷ p) s = ground (arith, has_prefix-append p s)

pub contains-append : (s p t : Text) → contains (s ++ (p ++ t)) p ≡ true
contains-append [] [] [] = refl
contains-append [] [] (c ∷ t) = refl
contains-append [] (d ∷ p) t = ground (arith, has_prefix-append p t)
contains-append (c ∷ s) p t = ground (arith, contains-append s p t)

pub lower-lower : (c : ℕ) → lower (lower c) ≡ lower c
unfolding lower
lower-lower c = ground arith

-- Trimming a text that ends in no space and begins with none changes nothing.
pub trim_right-trim_right : (s : Text) → trim_right (trim_right s) ≡ trim_right s
unfolding trim_right
trim_right-trim_right [] = refl
trim_right-trim_right (c ∷ s) = ground (arith, trim_right-trim_right s)
