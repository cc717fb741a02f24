-- ===== src/RuntimeState/Maps.antt =====
-- The loops of src/common/RuntimeState.cpp that fill a `std::map` from the items of an object.
use mathlib.Core.List.{append_assoc, append-nil}
use inference_server.Shared.{
  ◌≡◌, refl, sym, ap, ◌∙◌, true, String, List, [], ◌∷◌, ◌++◌, some, insert, lookup, is_some,
  or_else, arith, eq_iff,
}
use inference_server.Json.{Json, IsLawful, is_map, has_distinct_keys, ascends}
use inference_server.RuntimeState.Writing.{text_members}
use inference_server.RuntimeState.Reading.{read_with, object_items}

module _ {ℓ} {V : Type ℓ} where
  pub lookup-append :
      (m n : List (String × V)) (k : String) → lookup (m ++ n) k ≡ or_else (lookup m k) (lookup n k)
  unfolding lookup
  lookup-append [] n k = refl
  lookup-append ((j, v) ∷ m) n k = ground (arith, lookup-append m n k)

  -- A key that is not there goes to the end.
  pub insert-append :
      (m : List (String × V)) (k : String) (v : V) (n : List (String × V))
      → has_distinct_keys (m ++ (k, v) ∷ n) ≡ true
      → insert m k v ≡ m ++ (k, v) ∷ []
  unfolding insert has_distinct_keys lookup
  insert-append [] k v n h = refl
  insert-append ((j, w) ∷ m) k v n h =
      ground (arith, eq_iff j k, eq_iff k j, lookup-append m ((k, v) ∷ n) j, insert-append m k v n)

module _ (J : Json) where
  open J use {Value, text, object, find, as_text}

  is_some-text_members :
      (m : List (String × String)) (k : String)
      → is_some (lookup (text_members J m) k) ≡ is_some (lookup m k)
  unfolding lookup
  is_some-text_members [] k = refl
  is_some-text_members ((j, v) ∷ m) k = ground (arith, is_some-text_members m k)

  has_distinct_keys-text_members :
      (m : List (String × String)) → has_distinct_keys (text_members J m) ≡ has_distinct_keys m
  unfolding has_distinct_keys
  has_distinct_keys-text_members [] = refl
  has_distinct_keys-text_members ((k, v) ∷ m) =
      rw (is_some-text_members m k, has_distinct_keys-text_members m) refl

  ascends-text_members :
      (m : List (String × String)) → ascends J.less (text_members J m) ≡ ascends J.less m
  unfolding ascends
  ascends-text_members [] = refl
  ascends-text_members (e ∷ []) = refl
  ascends-text_members ((k, v) ∷ (j, w) ∷ m) = rw (ascends-text_members ((j, w) ∷ m)) refl

  is_map-text_members :
      (m : List (String × String)) → is_map J.less (text_members J m) ≡ is_map J.less m
  unfolding is_map
  is_map-text_members m = rw (has_distinct_keys-text_members m, ascends-text_members m) refl

  pub is_map-distinct {ℓ} :
      {V : Type ℓ} (m : List (String × V)) → is_map J.less m ≡ true → has_distinct_keys m ≡ true
  unfolding is_map
  is_map-distinct m h = ground arith

  module _ (laws : IsLawful J) where
    read_with-append :
        (m rest : List (String × String))
        → has_distinct_keys (m ++ rest) ≡ true
        → read_with J m (text_members J rest) ≡ some (m ++ rest)
    unfolding read_with
    read_with-append m [] h = ap some (sym (append-nil m))
    read_with-append m ((k, v) ∷ rest) h =
        rw (laws.as_text_text v, insert-append m k v rest h)
          (read_with-append (m ++ (k, v) ∷ []) rest (rw (append_assoc m ((k, v) ∷ []) rest) h))
        ∙ ap some (append_assoc m ((k, v) ∷ []) rest)

    -- The items of an object of texts are read back.
    pub read_with-object_items :
        (m : List (String × String))
        → is_map J.less m ≡ true
        → read_with J [] (object_items J (some (object (text_members J m)))) ≡ some m
    read_with-object_items m h =
        rw
          (
            laws.is_object_object (text_members J m),
            laws.items_object (text_members J m) (is_map-text_members m ∙ h),
          )
          (read_with-append [] m (is_map-distinct m h))
