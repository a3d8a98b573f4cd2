-- ===== src/Prelude/Maps.antt =====
-- Go's `map[string]V` as an association list: `m[k]`, `m[k] = v` and `delete(m, k)`. A map that may
-- be nil is an `Option` of one. The order of the entries is the order in which `range` visits them.
use Prim.Native.String.{String}
use text.Mathlib.Text.{◌==◌}
use mathlib.Core.Path.{◌≡◌, refl}
use mathlib.Core.Bool.{Bool, true, false}
use mathlib.Core.Option.{Option, none, some}
use mathlib.Core.List.{List, [], ◌∷◌}
use text.Mathlib.TextEquality.{eq_iff}
use native.Mathlib.Omega.{arith}

abbrev pub Map {ℓ} : Type ℓ → Type ℓ
Map V = List (String × V)

abbrev choose {ℓ} : {A : Type ℓ} → Bool → A → A → A
choose true x y = x
choose false x y = y

module _ {ℓ} {V : Type ℓ} where
  unfoldable pub lookup : String → Map V → Option V
  lookup key [] = none
  lookup key (entry ∷ rest) =
      let further = lookup key rest in choose (entry.0 == key) (some entry.1) further

  unfoldable pub insert : String → V → Map V → Map V
  insert key value [] = (key, value) ∷ []
  insert key value (entry ∷ rest) =
      let further = insert key value rest in
      choose (entry.0 == key) ((key, value) ∷ rest) (entry ∷ further)

  unfoldable pub remove : String → Map V → Map V
  remove key [] = []
  remove key (entry ∷ rest) =
      let further = remove key rest in choose (entry.0 == key) further (entry ∷ further)

  module _ (key other : String) where
    pub lookup-remove :
        (entries : Map V)
        → lookup other (remove key entries) ≡ choose (key == other) none (lookup other entries)
    unfolding lookup remove
    lookup-remove [] = ground arith
    lookup-remove (entry ∷ rest) =
        ground
          (arith, lookup-remove rest, eq_iff key other, eq_iff entry.0 other, eq_iff entry.0 key)

    pub lookup-insert :
        (value : V) (entries : Map V)
        → lookup other (insert key value entries)
          ≡ choose (key == other) (some value) (lookup other entries)
    unfolding lookup insert
    lookup-insert value [] = refl
    lookup-insert value (entry ∷ rest) =
        let same = eq_iff entry.0 key in
        ground (arith, same, eq_iff key other, eq_iff entry.0 other, lookup-insert value rest)
