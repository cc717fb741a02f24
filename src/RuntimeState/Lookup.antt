-- ===== src/RuntimeState/Lookup.antt =====
-- What `applyRuntimeState` (src/common/RuntimeState.cpp) makes findable, and how one addition,
-- removal or replacement in a list of entries and in its record of changes moves it.
use inference_server.Shared.{
  ◌≡◌, refl, ◌∙◌, ap, Bool, false, ◌||◌, none, String, List, [], ◌∷◌, ◌++◌, arith, str_eq, eq_iff,
  find_id, erase_id, find_id-append, find_id-erase_id, or_else, if◌then◌else◌, any,
}
use inference_server.RuntimeState.{erase_by_id, has_id, append_missing, apply_delta}

abbrev pub mem_id : List String → String → Bool
mem_id ids j = any (λ id. str_eq id j) ids

-- `v.erase(std::remove(v.begin(), v.end(), id), v.end())` on a vector of identifiers.
unfoldable pub forget : List String → String → List String
forget [] id = []
forget (k ∷ ks) id = if str_eq k id then forget ks id else k ∷ forget ks id

pub mem_id-append :
    (ids : List String) (k j : String) → mem_id (ids ++ k ∷ []) j ≡ (mem_id ids j || str_eq k j)
mem_id-append [] k j = ground arith
mem_id-append (i ∷ ids) k j = ground (arith, mem_id-append ids k j)

pub mem_id-forget :
    (ids : List String) (k j : String)
    → mem_id (forget ids k) j ≡ (if str_eq k j then false else mem_id ids j)
unfolding forget
mem_id-forget [] k j = ground arith
mem_id-forget (i ∷ ids) k j =
    ground (arith, eq_iff i k, eq_iff k j, eq_iff i j, mem_id-forget ids k j)

module _ {A : Type 0} (key : A → String) where
  find_id-erase_by_id :
      (vec : List A) (ids : List String) (j : String)
      → find_id key (erase_by_id key vec ids) j ≡ (if mem_id ids j then none else find_id key vec j)
  unfolding erase_by_id
  find_id-erase_by_id vec [] j = refl
  find_id-erase_by_id vec (id ∷ ids) j =
      ground (arith, find_id-erase_by_id (erase_id key vec id) ids j, find_id-erase_id key vec id j)

  find_id-append_missing :
      (vec xs : List A) (j : String)
      → find_id key (append_missing key vec xs) j ≡ or_else (find_id key vec j) (find_id key xs j)
  unfolding append_missing find_id
  find_id-append_missing vec [] j = ground arith
  find_id-append_missing vec (x ∷ xs) j = ground (
    arith,
    eq_iff (key x) j,
    find_id-append key vec (x ∷ []) j,
    find_id-append_missing (if has_id key vec (key x) then vec else vec ++ x ∷ []) xs j,
  )

  -- An entry is found in the base unless it was removed there, and else among the added ones.
  pub find_id-apply_delta :
      (base : List A) (removed : List String) (added : List A) (j : String)
      → find_id key (apply_delta key base removed added) j
        ≡ or_else (if mem_id removed j then none else find_id key base j) (find_id key added j)
  find_id-apply_delta base removed added j =
      find_id-append_missing (erase_by_id key base removed) added j
      ∙ ap (λ o. or_else o (find_id key added j)) (find_id-erase_by_id base removed j)
