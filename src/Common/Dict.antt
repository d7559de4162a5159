-- ===== src/Common/Dict.antt =====
-- Go's maps with string keys, as association lists.
use Prim.Native.String.{String}
use mathlib.Core.Path.{◌≡◌, refl}
use mathlib.Core.Option.{Option, none, some}
use mathlib.Core.List.{List, [], ◌∷◌}
use native.Mathlib.Omega.{arith}
use text.Mathlib.Text.{◌==◌}
use text.Mathlib.TextEquality.{eq_iff}
use task_flow_alisha_sharma.Common.Tests.{if◌then◌else◌}

abbrev pub Dict {ℓ} : Type ℓ → Type ℓ
Dict V = List (String × V)

module _ {ℓ} {V : Type ℓ} where
  unfoldable pub lookup : String → Dict V → Option V
  lookup key [] = none
  lookup key ((first, value) ∷ rest) = if first == key then some value else lookup key rest

  unfoldable pub insert : String → V → Dict V → Dict V
  insert key value [] = (key, value) ∷ []
  insert key value ((first, old) ∷ rest) =
      let later = insert key value rest in
      if first == key then (key, value) ∷ rest else (first, old) ∷ later

  unfoldable pub erase : String → Dict V → Dict V
  erase key [] = []
  erase key ((first, value) ∷ rest) =
      let later = erase key rest in if first == key then later else (first, value) ∷ later

  pub lookup-empty : (key : String) → lookup key [] ≡ none
  unfolding lookup
  lookup-empty key = refl

  pub lookup-insert :
      (key other : String) (value : V) (d : Dict V)
      → lookup other (insert key value d) ≡ (if key == other then some value else lookup other d)
  unfolding lookup insert
  lookup-insert key other value [] = refl
  lookup-insert key other value ((first, old) ∷ rest) = ground (
    arith,
    lookup-insert key other value rest,
    eq_iff key other,
    eq_iff first key,
    eq_iff first other,
  )

  pub lookup-erase :
      (key other : String) (d : Dict V)
      → lookup other (erase key d) ≡ (if key == other then none else lookup other d)
  unfolding lookup erase
  lookup-erase key other [] = ground arith
  lookup-erase key other ((first, value) ∷ rest) =
      ground
        (arith, lookup-erase key other rest, eq_iff key other, eq_iff first key, eq_iff first other)
