-- ===== src/Base/Maps.antt =====
-- The JavaScript `Map` with string keys: an association list with one entry for each key.
use Prim.Native.String.{String}
use mathlib.Core.Path.{◌≡◌, refl}
use mathlib.Core.Bool.{Bool, true, false}
use mathlib.Core.Option.{Option, none, some}
use mathlib.Core.List.{List, [], ◌∷◌}
use native.Mathlib.Omega.{arith}
use text.Mathlib.Text.{◌==◌}
use text.Mathlib.TextEquality.{eq_iff}
use engr_serverless_pm.Base.Tests.{if◌then◌else◌}

abbrev pub Map : Type 0 → Type 0
Map V = List (String × V)

module _ {V : Type 0} where
  unfoldable pub map_get : Map V → String → Option V
  map_get [] i = none
  map_get ((k, v) ∷ m) i = if k == i then some v else map_get m i

  unfoldable pub map_set : Map V → String → V → Map V
  map_set [] i v = (i, v) ∷ []
  map_set ((k, w) ∷ m) i v = if k == i then (k, v) ∷ m else (k, w) ∷ map_set m i v

  unfoldable pub map_has : Map V → String → Bool
  unfolding map_get
  map_has m i = elim (map_get m i) [ none ↦ false | some v ↦ true ]

  pub map_get-set :
      (m : Map V) (i : String) (v : V) (j : String)
      → map_get (map_set m i v) j ≡ (if i == j then some v else map_get m j)
  unfolding map_get map_set
  map_get-set [] i v j = refl
  map_get-set ((k, w) ∷ m) i v j =
      ground (arith, eq_iff k i, eq_iff k j, eq_iff i j, map_get-set m i v j)
