-- ===== src/Json.antt =====
-- What include/common and src/ use of nlohmann::json, as an interface: a type of values, the
-- constructors and readers that the code calls, and what it relies on.
--
-- A reader's `none` is the exception for a value of another type.
pub mod Readers
pub mod Plain
use inference_server.Shared.{
  ◌≡◌, Bool, true, false, String, List, [], ◌∷◌, Option, none, some, lookup, is_some, ◌&&◌, not,
  if◌then◌else◌,
}
use inference_server.Shared.Int.{ℤ}
use inference_server.Config.{Float32}

pub record Json : Type 1 where
  pub Value : Type 0
  pub text : String → Value
  pub int : ℤ → Value
  pub bool : Bool → Value
  pub float : Float32 → Value
  pub array : List Value → Value
  -- An initializer list of pairs, or a `std::map`.
  pub object : List (String × Value) → Value
  pub is_object : Value → Bool
  pub is_text : Value → Bool
  -- `find`, which finds nothing in a value that is not an object.
  pub find : Value → String → Option Value
  -- `get<…>`
  pub as_text : Value → Option String
  pub as_int : Value → Option ℤ
  pub as_bool : Value → Option Bool
  pub as_float : Value → Option Float32
  -- What a loop over the value visits.
  pub elements : Value → List Value
  -- What a loop over `items()` visits.
  pub items : Value → List (String × Value)
  -- `parse`, which throws for what is no JSON, and `dump`; the texts are UTF-8.
  pub parse : String → Option Value
  pub dump : Value → String
  -- The order of the keys of a `std::map`, which is that of an object's members.
  pub less : String → String → Bool

-- No key occurs twice.
unfoldable pub has_distinct_keys {ℓ} : {V : Type ℓ} → List (String × V) → Bool
has_distinct_keys [] = true
has_distinct_keys ((k, v) ∷ m) = not (is_some (lookup m k)) && has_distinct_keys m

module _ (less : String → String → Bool) where
  -- Each key comes after the one before it.
  unfoldable pub ascends {ℓ} : {V : Type ℓ} → List (String × V) → Bool
  ascends [] = true
  ascends (e ∷ []) = true
  ascends ((k, v) ∷ (j, w) ∷ m) = less k j && ascends ((j, w) ∷ m)

  -- The entries are those of a `std::map`, in its order.
  unfoldable pub is_map {ℓ} : {V : Type ℓ} → List (String × V) → Bool
  is_map m = has_distinct_keys m && ascends m

-- What is built is read back.
pub record IsLawful (J : Json) : Type 0 where
  pub is_object_object : (m : List (String × J.Value)) → J.is_object (J.object m) ≡ true
  pub is_text_text : (s : String) → J.is_text (J.text s) ≡ true
  pub find_object : (m : List (String × J.Value)) (k : String) → J.find (J.object m) k ≡ lookup m k
  pub as_text_text : (s : String) → J.as_text (J.text s) ≡ some s
  pub as_int_int : (n : ℤ) → J.as_int (J.int n) ≡ some n
  pub as_bool_bool : (b : Bool) → J.as_bool (J.bool b) ≡ some b
  pub as_float_float : (x : Float32) → J.as_float (J.float x) ≡ some x
  pub elements_array : (xs : List J.Value) → J.elements (J.array xs) ≡ xs
  pub items_object :
      (m : List (String × J.Value)) → is_map J.less m ≡ true → J.items (J.object m) ≡ m
