-- ===== src/Shared/Keyed.antt =====
-- Vectors of structs that are looked up by an identifier, the idiom of `AppConfig::find*`,
-- of `std::remove_if` by id and of the in-place replacement loops.
use Prim.Native.String.{String}
use mathlib.Core.Path.{◌≡◌, refl}
use mathlib.Core.Bool.{true}
use mathlib.Core.Option.{Option, none, some}
use mathlib.Core.List.{List, [], ◌∷◌, ◌++◌}
use native.Mathlib.Omega.{arith}
use text.Mathlib.Text.{◌==◌ as str_eq}
use text.Mathlib.TextEquality.{eq_iff}
use inference_server.Shared.Lists.{All, All-mono}
use inference_server.Shared.Tests.{if◌then◌else◌, or_else, is_some}

module _ {ℓ} {A : Type ℓ} (key : A → String) where
  -- The first entry with the identifier.
  unfoldable pub find_id : List A → String → Option A
  find_id [] k = none
  find_id (x ∷ xs) k = if str_eq (key x) k then some x else find_id xs k

  -- `v.erase(std::remove_if(…, id == k), v.end())`.
  unfoldable pub erase_id : List A → String → List A
  erase_id [] k = []
  erase_id (x ∷ xs) k = if str_eq (key x) k then erase_id xs k else x ∷ erase_id xs k

  -- `for (auto& e : v) if (e.id == x.id) { e = x; break; }`
  unfoldable pub replace_id : List A → A → List A
  replace_id [] x = []
  replace_id (y ∷ ys) x = if str_eq (key y) (key x) then x ∷ ys else y ∷ replace_id ys x

  pub find_id-append :
      (xs ys : List A) (k : String) → find_id (xs ++ ys) k ≡ or_else (find_id xs k) (find_id ys k)
  unfolding find_id
  find_id-append [] ys k = refl
  find_id-append (x ∷ xs) ys k = ground (arith, find_id-append xs ys k)

  pub find_id-erase_id :
      (xs : List A) (k j : String)
      → find_id (erase_id xs k) j ≡ (if str_eq k j then none else find_id xs j)
  unfolding find_id erase_id
  find_id-erase_id [] k j = ground arith
  find_id-erase_id (x ∷ xs) k j =
      ground (arith, eq_iff (key x) k, eq_iff k j, eq_iff (key x) j, find_id-erase_id xs k j)

  -- A replacement is found under its identifier, if that was there.
  pub find_id-replace_id :
      (xs : List A) (x : A) (j : String)
      → find_id (replace_id xs x) j ≡ (
          if str_eq (key x) j
          then (if is_some (find_id xs j) then some x else none)
          else find_id xs j)
  unfolding find_id replace_id
  find_id-replace_id [] x j = ground arith
  find_id-replace_id (y ∷ ys) x j =
      ground (
        arith,
        eq_iff (key y) (key x),
        eq_iff (key x) j,
        eq_iff (key y) j,
        find_id-replace_id ys x j,
      )

module _ {ℓ} {A : Type ℓ} (key : A → String) where
  pub All-erase_id {κ} :
      (P : A → Type κ) (xs : List A) (k : String) → All P xs → All P (erase_id key xs k)
  unfolding erase_id
  All-erase_id P [] k h = tt
  All-erase_id P (x ∷ xs) k h = ground (arith, All-erase_id P xs k h.1)

  pub All-replace_id {κ} :
      (P : A → Type κ) (xs : List A) (x : A) → All P xs → P x → All P (replace_id key xs x)
  unfolding replace_id
  All-replace_id P [] x h p = tt
  All-replace_id P (y ∷ ys) x h p = ground (arith, All-replace_id P ys x h.1 p)

  -- Every entry's identifier is found.
  pub All-find_id : (xs : List A) → All (λ x. is_some (find_id key xs (key x)) ≡ true) xs
  unfolding find_id
  All-find_id [] = tt
  All-find_id (x ∷ xs) = (
    ground (arith, (eq_iff (key x) (key x)).1 refl),
    All-mono _ _ xs (λ y h. ground arith) (All-find_id xs),
  )
