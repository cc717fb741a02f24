-- ===== src/RuntimeState/Recovery.antt =====
-- One list of entries with its record of changes (src/common/RuntimeState.cpp,
-- src/pipeline/TaskManager.cpp): does the next start find the entries that there are now?
use text.Mathlib.TextPositions.{eq_refl}
use inference_server.Shared.{
  ◌≡◌, refl, sym, ◌∙◌, none, some, String, List, [], ◌∷◌, ◌++◌, arith, str_eq, eq_iff, find_id,
  erase_id, replace_id, find_id-append, find_id-erase_id, find_id-replace_id, or_else,
  if◌then◌else◌, Bool-cases, inl, inr,
}
use inference_server.RuntimeState.{apply_delta}
use inference_server.RuntimeState.Lookup.{
  mem_id, forget, mem_id-append, mem_id-forget, find_id-apply_delta,
}

module _ {A : Type 0} (key : A → String) where
  -- The saved changes, applied to the base, find what is found now.
  abbrev pub Recovers : List A → List String → List A → List A → Type 0
  Recovers base removed added now =
      (j : String) → find_id key (apply_delta key base removed added) j ≡ find_id key now j

  abbrev Found : List A → List String → List A → List A → Type 0
  Found base removed added now =
      (j : String)
      → or_else (if mem_id removed j then none else find_id key base j) (find_id key added j)
        ≡ find_id key now j

  found :
      (base : List A) (removed : List String) (added now : List A)
      → Recovers base removed added now
      → Found base removed added now
  found base removed added now r j = sym (find_id-apply_delta key base removed added j) ∙ r j

  recovers :
      (base : List A) (removed : List String) (added now : List A)
      → Found base removed added now
      → Recovers base removed added now
  recovers base removed added now f j = find_id-apply_delta key base removed added j ∙ f j

  find_one :
      (x : A) (j : String) → find_id key (x ∷ []) j ≡ (if str_eq (key x) j then some x else none)
  unfolding find_id
  find_one x j = refl

  -- Where the saved changes, applied to the base list, find what is found now, they still do after
  -- an entry is added whose identifier neither list has.
  pub add-Recovers :
      (base : List A) (removed : List String) (added now : List A) (x : A)
      → Recovers base removed added now
      → find_id key now (key x) ≡ none
      → find_id key base (key x) ≡ none
      → Recovers base (forget removed (key x)) (added ++ x ∷ []) (now ++ x ∷ [])
  add-Recovers base removed added now x r absent fresh =
      recovers base (forget removed (key x)) (added ++ x ∷ []) (now ++ x ∷ []) at
    where
      r' : Found base removed added now
      r' = found base removed added now r

      at : Found base (forget removed (key x)) (added ++ x ∷ []) (now ++ x ∷ [])
      at j = elim (Bool-cases (str_eq (key x) j)) [
        | inl e ↦ ground (
          arith,
          (eq_iff (key x) j).0 e,
          r' j,
          mem_id-forget removed (key x) j,
          find_id-append key added (x ∷ []) j,
          find_id-append key now (x ∷ []) j,
          find_one x j,
        )
        | inr e ↦ ground (
          arith,
          r' j,
          mem_id-forget removed (key x) j,
          find_id-append key added (x ∷ []) j,
          find_id-append key now (x ∷ []) j,
          find_one x j,
        )
      ]

  -- Where the saved changes, applied to the base list, find what is found now, they still do after
  -- a removal.
  pub remove-Recovers :
      (base : List A) (removed : List String) (added now : List A) (k : String)
      → Recovers base removed added now
      → Recovers base (removed ++ k ∷ []) (erase_id key added k) (erase_id key now k)
  remove-Recovers base removed added now k r =
      recovers base (removed ++ k ∷ []) (erase_id key added k) (erase_id key now k) (λ j. ground (
        arith,
        found base removed added now r j,
        mem_id-append removed k j,
        find_id-erase_id key added k j,
        find_id-erase_id key now k j,
      ))

  pub replace-Recovers :
      (base : List A) (removed : List String) (added now : List A) (x : A)
      → Recovers base removed added now
      → find_id key base (key x) ≡ none
      → Recovers base removed (replace_id key added x) (replace_id key now x)
  replace-Recovers base removed added now x r fresh =
      recovers base removed (replace_id key added x) (replace_id key now x) at
    where
      r' : Found base removed added now
      r' = found base removed added now r

      at : Found base removed (replace_id key added x) (replace_id key now x)
      at j = elim (Bool-cases (str_eq (key x) j)) [
        | inl e ↦ ground (
          arith,
          (eq_iff (key x) j).0 e,
          r' j,
          find_id-replace_id key added x j,
          find_id-replace_id key now x j,
        )
        | inr e ↦
            ground (arith, r' j, find_id-replace_id key added x j, find_id-replace_id key now x j)
      ]

  -- An entry whose identifier the base list has, added again after its removal, is not what the
  -- saved changes applied to the base list find: they find the base's entry.
  pub add_lost :
      (base : List A) (removed : List String) (added : List A) (x b : A)
      → find_id key base (key x) ≡ some b
      → find_id key (apply_delta key base (forget removed (key x)) (added ++ x ∷ [])) (key x)
        ≡ some b
  add_lost base removed added x b h = ground (
    arith,
    find_id-apply_delta key base (forget removed (key x)) (added ++ x ∷ []) (key x),
    mem_id-forget removed (key x) (key x),
    eq_refl (key x),
  )
