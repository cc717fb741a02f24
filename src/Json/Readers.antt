-- ===== src/Json/Readers.antt =====
-- `value(key, default)` of nlohmann::json, and what it reads from an object that was built.
use inference_server.Shared.{
  ◌≡◌, refl, ap, ◌∙◌, Bool, String, List, [], Option, none, some, lookup, if◌then◌else◌,
}
use inference_server.Shared.Int.{ℤ}
use inference_server.Config.{Float32}
use inference_server.Json.{Json, IsLawful}

module _ (J : Json) where
  open J use {
    Value, object, is_object, find, as_text, as_int, as_bool, as_float, text, int, bool, float,
    array,
  }

  abbrev read_or {ℓ} : {A : Type ℓ} → (Value → Option A) → A → Option Value → Option A
  read_or read default none = some default
  read_or read default (some v) = read v

  -- It throws where the value is no object, or where the member has another type.
  unfoldable pub value {ℓ} : {A : Type ℓ} → (Value → Option A) → Value → String → A → Option A
  value read j k default = if is_object j then read_or read default (find j k) else none

  unfoldable pub value_text : Value → String → String → Option String
  value_text = value as_text

  unfoldable pub value_int : Value → String → ℤ → Option ℤ
  value_int = value as_int

  unfoldable pub value_bool : Value → String → Bool → Option Bool
  value_bool = value as_bool

  unfoldable pub value_float : Value → String → Float32 → Option Float32
  value_float = value as_float

  -- `value(key, json::array())`, whose elements a loop visits.
  abbrev elements_of : Option Value → Option (List Value)
  elements_of none = none
  elements_of (some v) = some (J.elements v)

  unfoldable pub value_elements : Value → String → Option (List Value)
  value_elements j k = elements_of (value (λ v. some v) j k (array []))

  module _ (laws : IsLawful J) where
    pub value-object {ℓ} :
        {A : Type ℓ} (read : Value → Option A) (m : List (String × Value)) (k : String)
        (default : A) (v : Value)
        → lookup m k ≡ some v
        → value read (object m) k default ≡ read v
    unfolding value
    value-object read m k default v h = rw (laws.is_object_object m, laws.find_object m k, h) refl

    pub value_text-object :
        (m : List (String × Value)) (k default s : String)
        → lookup m k ≡ some (text s)
        → value_text (object m) k default ≡ some s
    unfolding value_text
    value_text-object m k default s h =
        value-object as_text m k default (text s) h ∙ laws.as_text_text s

    pub value_int-object :
        (m : List (String × Value)) (k : String) (default n : ℤ)
        → lookup m k ≡ some (int n)
        → value_int (object m) k default ≡ some n
    unfolding value_int
    value_int-object m k default n h = value-object as_int m k default (int n) h ∙ laws.as_int_int n

    pub value_bool-object :
        (m : List (String × Value)) (k : String) (default b : Bool)
        → lookup m k ≡ some (bool b)
        → value_bool (object m) k default ≡ some b
    unfolding value_bool
    value_bool-object m k default b h =
        value-object as_bool m k default (bool b) h ∙ laws.as_bool_bool b

    pub value_float-object :
        (m : List (String × Value)) (k : String) (default x : Float32)
        → lookup m k ≡ some (float x)
        → value_float (object m) k default ≡ some x
    unfolding value_float
    value_float-object m k default x h =
        value-object as_float m k default (float x) h ∙ laws.as_float_float x

    pub value_elements-object :
        (m : List (String × Value)) (k : String) (xs : List Value)
        → lookup m k ≡ some (array xs)
        → value_elements (object m) k ≡ some xs
    unfolding value_elements
    value_elements-object m k xs h =
        ap elements_of (value-object (λ v. some v) m k (array []) (array xs) h)
        ∙ ap some (laws.elements_array xs)
