-- ===== src/Json/Plain.antt =====
-- A concrete instance of the interface to nlohmann::json, for the tests: values as they are built.
use inference_server.Shared.{
  ◌≡◌, refl, ap, Bool, true, false, String, List, [], ◌∷◌, Option, none, some, lookup,
}
use inference_server.Shared.Int.{ℤ}
use inference_server.Config.{Float32}
use inference_server.Json.{Json, IsLawful}

mutual
  pub data Plain : Type 0 where
    text : String → Plain
    int : ℤ → Plain
    bool : Bool → Plain
    float : Float32 → Plain
    array : Members → Plain
    object : Members → Plain

  pub data Members : Type 0 where
    done : Members
    member : String → Plain → Members → Members

abbrev of_members : List (String × Plain) → Members
of_members [] = done
of_members ((k, v) ∷ m) = member k v (of_members m)

abbrev to_members : Members → List (String × Plain)
to_members done = []
to_members (member k v m) = (k, v) ∷ to_members m

abbrev of_elements : List Plain → Members
of_elements [] = done
of_elements (v ∷ m) = member "" v (of_elements m)

abbrev to_elements : Members → List Plain
to_elements done = []
to_elements (member k v m) = v ∷ to_elements m

to_members-of_members : (m : List (String × Plain)) → to_members (of_members m) ≡ m
to_members-of_members [] = refl
to_members-of_members ((k, v) ∷ m) = rw (to_members-of_members m) refl

to_elements-of_elements : (m : List Plain) → to_elements (of_elements m) ≡ m
to_elements-of_elements [] = refl
to_elements-of_elements (v ∷ m) = rw (to_elements-of_elements m) refl

abbrev is_object : Plain → Bool
is_object (object m) = true
is_object _ = false

abbrev is_text : Plain → Bool
is_text (text s) = true
is_text _ = false

abbrev items : Plain → List (String × Plain)
items (object m) = to_members m
items _ = []

abbrev elements : Plain → List Plain
elements (array m) = to_elements m
elements _ = []

abbrev as_text : Plain → Option String
as_text (text s) = some s
as_text _ = none

abbrev as_int : Plain → Option ℤ
as_int (int s) = some s
as_int _ = none

abbrev as_bool : Plain → Option Bool
as_bool (bool s) = some s
as_bool _ = none

abbrev as_float : Plain → Option Float32
as_float (float s) = some s
as_float _ = none

-- Every text is parsed to `parsed`.
abbrev pub plain_json : Option Plain → Json
plain_json parsed = record {
  Value = Plain;
  text = λ s. text s;
  int = λ n. int n;
  bool = λ b. bool b;
  float = λ x. float x;
  array = λ xs. array (of_elements xs);
  object = λ m. object (of_members m);
  is_object = is_object;
  is_text = is_text;
  find = λ v k. lookup (items v) k;
  as_text = as_text;
  as_int = as_int;
  as_bool = as_bool;
  as_float = as_float;
  elements = elements;
  items = items;
  parse = λ s. parsed;
  dump = λ v. "";
  less = λ j k. true;
}

pub plain_json-IsLawful : (parsed : Option Plain) → IsLawful (plain_json parsed)
plain_json-IsLawful parsed = record {
  is_object_object = λ m. refl;
  is_text_text = λ s. refl;
  find_object = λ m k. ap (λ l. lookup l k) (to_members-of_members m);
  as_text_text = λ s. refl;
  as_int_int = λ n. refl;
  as_bool_bool = λ b. refl;
  as_float_float = λ x. refl;
  elements_array = to_elements-of_elements;
  items_object = λ m h. to_members-of_members m;
}
