-- ===== src/Base/Decimal.antt =====
-- Decimal numbers: what `%d` and `strconv.Itoa` write, and what `strconv` reads back.
use Prim.Native.Nat.{ℕ, zero, suc, ◌+◌, ◌-◌, ◌*◌, ◌/◌, ◌%◌, ◌<◌}
use mathlib.Core.Path.{◌≡◌, refl, ap, sym, ◌∙◌}
use mathlib.Core.Logic.{inl, inr}
use mathlib.Core.Bool.{Bool, true, false, ◌&&◌}
use mathlib.Core.Option.{Option, none, some}
use mathlib.Core.List.{[], ◌∷◌, ◌++◌}
use native.Mathlib.Omega.{arith}
use systemd_transition_expor.Base.Tests.{leb, ltb, if◌then◌else◌, Bool-cases}
use systemd_transition_expor.Base.Lists.{All, All-append}
use systemd_transition_expor.Base.Text.{Text, is_empty}

abbrev pub is_digit : ℕ → Bool
is_digit c = leb b'0' c && leb c b'9'

-- The value of a text of digits, read on from `acc`.
unfoldable pub digits : ℕ → Text → Option ℕ
digits acc [] = some acc
digits acc (c ∷ s) =
    let rest = digits (acc * 10 + (c - b'0')) s in if is_digit c then rest else none

unfoldable pub number : Text → Option ℕ
number t = if is_empty t then none else digits 0 t

-- On fuel; a number has no more digits than its value and one.
unfoldable pub decimal_from : ℕ → ℕ → Text
decimal_from zero n = []
decimal_from (suc fuel) n =
    let front = decimal_from fuel (n / 10) in
    let last = (b'0' + n % 10) ∷ [] in if ltb n 10 then last else front ++ last

unfoldable pub decimal : ℕ → Text
decimal n = decimal_from (suc n) n

then_digit : Option ℕ → ℕ → Option ℕ
then_digit none c = none
then_digit (some v) c = some (v * 10 + (c - b'0'))

digits-snoc :
    (acc : ℕ) (s : Text) (c : ℕ)
    → is_digit c ≡ true
    → digits acc (s ++ c ∷ []) ≡ then_digit (digits acc s) c
unfolding digits then_digit
digits-snoc acc [] c h = rw h refl
digits-snoc acc (d ∷ s) c h = elim (Bool-cases (is_digit d)) [
  | inl e ↦ rw e (digits-snoc (acc * 10 + (d - b'0')) s c h)
  | inr e ↦ rw e refl
]

digits-decimal_from : (fuel n : ℕ) → n < fuel → digits 0 (decimal_from fuel n) ≡ some n
unfolding decimal_from then_digit digits
digits-decimal_from zero n h = ground arith
digits-decimal_from (suc fuel) n h = elim (Bool-cases (ltb n 10)) [
  | inl e ↦ rw e (ground arith)
  | inr e ↦
      rw
        (
          e,
          digits-snoc 0 (decimal_from fuel (n / 10)) (b'0' + n % 10) (ground arith),
          digits-decimal_from fuel (n / 10) (ground arith),
        )
        (ground arith)
]

decimal_from-nonempty : (fuel n : ℕ) → is_empty (decimal_from (suc fuel) n) ≡ false
unfolding decimal_from
decimal_from-nonempty fuel n = elim (Bool-cases (ltb n 10)) [
  | inl e ↦ rw e refl
  | inr e ↦ rw e (snoc (decimal_from fuel (n / 10)))
]
  where
    snoc : (s : Text) → is_empty (s ++ (b'0' + n % 10) ∷ []) ≡ false
    snoc [] = refl
    snoc (c ∷ s) = refl

-- A printed number reads as itself.
number-decimal : (n : ℕ) → number (decimal n) ≡ some n
unfolding number decimal
number-decimal n = rw (decimal_from-nonempty n n) (digits-decimal_from (suc n) n (omega arith))

pub decimal_injective : (n m : ℕ) → decimal n ≡ decimal m → n ≡ m
decimal_injective n m h =
    let e : some n ≡ some m = sym (number-decimal n) ∙ (ap number h ∙ number-decimal m) in cc

-- Every character of a printed number is a digit.
digits_only : (fuel n : ℕ) → All (λ c. is_digit c ≡ true) (decimal_from fuel n)
unfolding decimal_from
digits_only zero n = tt
digits_only (suc fuel) n = elim (Bool-cases (ltb n 10)) [
  | inl e ↦ rw e (ground arith, tt)
  | inr e ↦
      rw e
        (All-append _ (decimal_from fuel (n / 10)) _ (digits_only fuel (n / 10)) (ground arith, tt))
]

pub decimal-digits : (n : ℕ) → All (λ c. is_digit c ≡ true) (decimal n)
unfolding decimal
decimal-digits n = digits_only (suc n) n
