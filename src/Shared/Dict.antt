-- ===== src/Shared/Dict.antt =====
-- `std::map` and `std::unordered_map` keyed by text, as association lists. The order of the list
-- stands for the order of iteration, which the C++ code does not rely on.
use Prim.Native.String.{String}
use mathlib.Core.Path.{◌≡◌, refl}
use mathlib.Core.Option.{Option, none, some}
use mathlib.Core.List.{List, [], ◌∷◌}
use native.Mathlib.Omega.{arith}
use text.Mathlib.Text.{◌==◌ as str_eq}
use text.Mathlib.TextEquality.{eq_iff}
use inference_server.Shared.Tests.{if◌then◌else◌}

module _ {ℓ} {V : Type ℓ} where
  unfoldable pub lookup : List (String × V) → String → Option V
  lookup [] k = none
  lookup ((j, v) ∷ m) k = if str_eq j k then some v else lookup m k

  -- `m[k] = v`
  unfoldable pub insert : List (String × V) → String → V → List (String × V)
  insert [] k v = (k, v) ∷ []
  insert ((j, w) ∷ m) k v = if str_eq j k then (j, v) ∷ m else (j, w) ∷ insert m k v

  -- `m.erase(k)`
  unfoldable pub erase : List (String × V) → String → List (String × V)
  erase [] k = []
  erase ((j, w) ∷ m) k = if str_eq j k then erase m k else (j, w) ∷ erase m k

  pub lookup-insert :
      (m : List (String × V)) (k : String) (v : V) (j : String)
      → lookup (insert m k v) j ≡ (if str_eq k j then some v else lookup m j)
  unfolding lookup insert
  lookup-insert [] k v j = refl
  lookup-insert ((i, w) ∷ m) k v j =
      ground (arith, eq_iff i k, eq_iff k j, eq_iff i j, lookup-insert m k v j)

  pub lookup-erase :
      (m : List (String × V)) (k j : String)
      → lookup (erase m k) j ≡ (if str_eq k j then none else lookup m j)
  unfolding lookup erase
  lookup-erase [] k j = ground arith
  lookup-erase ((i, w) ∷ m) k j =
      ground (arith, eq_iff i k, eq_iff k j, eq_iff i j, lookup-erase m k j)
