-- ===== src/Base/Dict.antt =====
-- Go's `map[string]V` as an association list. A missing key reads as `none`.
use Prim.Native.String.{String}
use mathlib.Core.Path.{◌≡◌, refl}
use mathlib.Core.Option.{Option, none, some}
use mathlib.Core.List.{List, [], ◌∷◌}
use native.Mathlib.Omega.{arith}
use text.Mathlib.Text.{◌==◌}
use text.Mathlib.TextEquality.{eq_iff}
use text.Mathlib.TextPositions.{eq_refl}
use systemd_transition_expor.Base.Tests.{if◌then◌else◌}

abbrev pub Dict {ℓ} : Type ℓ → Type ℓ
Dict V = List (String × V)

module _ {ℓ} {V : Type ℓ} where
  unfoldable pub lookup : String → Dict V → Option V
  lookup key [] = none
  lookup key ((name, held) ∷ rest) = if name == key then some held else lookup key rest

  pub keys : Dict V → List String
  keys [] = []
  keys ((name, held) ∷ rest) = name ∷ keys rest

  -- A key that is there keeps its place.
  unfoldable pub insert : String → V → Dict V → Dict V
  insert key new [] = (key, new) ∷ []
  insert key new ((name, held) ∷ rest) =
      let later = insert key new rest in
      if name == key then (key, new) ∷ rest else (name, held) ∷ later

  pub lookup-insert :
      (key other : String) (new : V) (d : Dict V)
      → lookup other (insert key new d) ≡ (if key == other then some new else lookup other d)
  unfolding lookup insert
  lookup-insert key other new [] = refl
  lookup-insert key other new ((name, held) ∷ rest) = ground (
    arith,
    lookup-insert key other new rest,
    eq_iff name other,
    eq_iff key other,
    eq_iff name key,
  )

  pub lookup-insert_self :
      (key : String) (new : V) (d : Dict V) → lookup key (insert key new d) ≡ some new
  lookup-insert_self key new d = simp (lookup-insert, eq_refl)

  pub insert-insert :
      (key : String) (new old : V) (d : Dict V)
      → insert key new (insert key old d) ≡ insert key new d
  unfolding insert
  insert-insert key new old [] = simp eq_refl
  insert-insert key new old ((name, held) ∷ rest) =
      ground (arith, eq_iff name key, eq_iff key key, insert-insert key new old rest)

  -- Writing back what a key holds changes nothing.
  pub insert-lookup :
      (key : String) (held : V) (d : Dict V) → lookup key d ≡ some held → insert key held d ≡ d
  unfolding insert lookup
  insert-lookup key held [] h = cc
  insert-lookup key held ((name, x) ∷ rest) h =
      ground (arith, eq_iff name key, insert-lookup key held rest)

  unfoldable pub remove : String → Dict V → Dict V
  remove key [] = []
  remove key ((name, held) ∷ rest) =
      let later = remove key rest in if name == key then later else (name, held) ∷ later

  pub lookup-remove :
      (key other : String) (d : Dict V)
      → lookup other (remove key d) ≡ (if key == other then none else lookup other d)
  unfolding lookup remove
  lookup-remove key other [] = ground arith
  lookup-remove key other ((name, held) ∷ rest) =
      ground
        (arith, lookup-remove key other rest, eq_iff name other, eq_iff key other, eq_iff name key)
