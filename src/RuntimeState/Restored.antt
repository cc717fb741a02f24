-- ===== src/RuntimeState/Restored.antt =====
-- src/common/RuntimeState.cpp: the file that `saveRuntimeState` leaves, and what `loadRuntimeState` reads
-- from it.
use text.Mathlib.TextLemmas.{append_cancel_left, append-nil}
use mathlib.Core.Bool.{false≢true}
use text.Mathlib.TextPositions.{eq_refl}
use inference_server.Shared.{
  Bool-cases, inl, inr, ◌≡◌, refl, sym, ap, ◌∙◌, true, false, ◌&&◌, String, List, Option, some, map,
  if◌then◌else◌, str_eq, lookup, insert, lookup-insert, lookup-erase, All, All-mono, arith, eq_iff,
}
use inference_server.Shared.Options.{traverse-map, All-of}
use inference_server.Shared.Int.{ℤ}
use inference_server.Json.{Json, IsLawful}
use inference_server.Json.Readers.{value_elements-object}
use inference_server.RuntimeState.{RuntimeState}
use inference_server.RuntimeState.Writing.{
  state_fields, state_to_json, source_to_json, pipeline_to_json, task_to_json, model_to_json,
}
use inference_server.RuntimeState.Reading.{source_from_json, pipeline_from_json, task_from_json}
use inference_server.RuntimeState.RoundTrip.{
  HasMaps, source_from_json-to_json, pipeline_from_json-to_json, task_from_json-to_json,
}
use inference_server.RuntimeState.Saved.{IsWritten, model_from_json-to_json}
use inference_server.RuntimeState.Loading.{
  state_from_json, read_state, load_runtime_state, save_runtime_state, Disk, tmp_path, rename,
  model_from_json, read_all,
}

abbrev suffix : String
suffix = ".tmp"

suffix-ne : suffix ≡ "" → ⊥
suffix-ne h = false≢true (ap (λ s. str_eq s "") h)

-- The temporary file is another file.
tmp_path-ne : (path : String) → str_eq (tmp_path path) path ≡ false
tmp_path-ne path = elim (Bool-cases (str_eq (tmp_path path) path)) [
  | inl e ↦ absurd (
      suffix-ne (
        append_cancel_left path suffix ""
          ((eq_iff (tmp_path path) path).0 e ∙ sym (append-nil path))))
  | inr e ↦ e
]

lookup-rename :
    (files : List (String × String)) (path content : String)
    → lookup (rename files (tmp_path path) path content) path ≡ some content
lookup-rename files path content = ground (
  arith,
  lookup-erase (insert files path content) (tmp_path path) path,
  lookup-insert files path content path,
  tmp_path-ne path,
  eq_refl path,
)

lookup-tmp :
    (files : List (String × String)) (path content : String)
    → lookup (insert files (tmp_path path) content) path ≡ lookup files path
lookup-tmp files path content =
    ground (arith, lookup-insert files (tmp_path path) content path, tmp_path-ne path)

module _ (J : Json) (laws : IsLawful J) (show : ℤ → String) (stoi : String → Option ℤ) where
  open J use {Value, text, array, object, as_text}

  read_all-object {ℓ} :
      {A : Type ℓ} (write : A → Value) (read : Value → Option A) (m : List (String × Value))
      (k : String) (xs : List A)
      → lookup m k ≡ some (array (map write xs))
      → All (λ x. read (write x) ≡ some x) xs
      → read_all J stoi read (object m) k ≡ some xs
  read_all-object write read m k xs h all =
      rw (value_elements-object J laws m k (map write xs) h) (traverse-map write read xs all)

  -- The models and the pipelines of the record are written in full.
  unfoldable pub IsRecorded : RuntimeState → Type 0
  IsRecorded s =
      All (HasMaps J laws) s.added_pipelines × All (IsWritten J laws show stoi) s.added_models

  pub state_from_json-to_json :
      (s : RuntimeState) → IsRecorded s → state_from_json J stoi (state_to_json J show s) ≡ some s
  unfolding state_from_json state_to_json lookup IsRecorded
  state_from_json-to_json s h =
      let m = state_fields J show s in
      rw
        (
          read_all-object (source_to_json J) (source_from_json J) m "added_sources" s.added_sources
              refl (All-of _ s.added_sources (source_from_json-to_json J laws)),
          read_all-object text as_text m "removed_source_ids" s.removed_source_ids refl
              (All-of _ s.removed_source_ids laws.as_text_text),
          read_all-object (pipeline_to_json J) (pipeline_from_json J) m "added_pipelines"
              s.added_pipelines refl
              (All-mono _ _ s.added_pipelines (pipeline_from_json-to_json J laws) h.0),
          read_all-object text as_text m "removed_pipeline_ids" s.removed_pipeline_ids refl
              (All-of _ s.removed_pipeline_ids laws.as_text_text),
          read_all-object (task_to_json J) (task_from_json J) m "added_tasks" s.added_tasks refl
              (All-of _ s.added_tasks (task_from_json-to_json J laws)),
          read_all-object text as_text m "removed_task_ids" s.removed_task_ids refl
              (All-of _ s.removed_task_ids laws.as_text_text),
          read_all-object (model_to_json J show) (model_from_json J stoi) m "added_models"
              s.added_models refl
              (All-mono _ _ s.added_models (model_from_json-to_json J laws show stoi) h.1),
          read_all-object text as_text m "removed_model_ids" s.removed_model_ids refl
              (All-of _ s.removed_model_ids laws.as_text_text),
        )
        refl

  -- After a save, loading the same path reads what the stream left of the written text if the
  -- temporary file opened and the rename succeeded, and otherwise gives what it gave before the
  -- save.
  pub load-save :
      (disk : Disk) (s : RuntimeState) (path : String) (files : List (String × String))
      → load_runtime_state J stoi (save_runtime_state J show disk s path files) path ≡ (
          if disk.opens && disk.renames
          then read_state J stoi (some (disk.written (J.dump (state_to_json J show s))))
          else load_runtime_state J stoi files path)
  unfolding load_runtime_state save_runtime_state
  load-save disk s path files =
      let content = disk.written (J.dump (state_to_json J show s)) in
      elim (Bool-cases disk.opens) [
        | inl o ↦ elim (Bool-cases disk.renames) [
          | inl r ↦ rw (o, r, lookup-rename files path content) refl
          | inr r ↦ rw (o, r, lookup-tmp files path content) refl
        ]
        | inr o ↦ rw (o) refl
      ]

  -- After a save whose temporary file opened, was renamed and holds a text that parses back to the
  -- value that was written, loadRuntimeState returns the record that was saved, if the settings of
  -- every stage are those of a map and every model has a version with a name, the default batch
  -- dimension and paths whose keys, as texts, are in order and are read back.
  pub load-saved :
      (disk : Disk) (s : RuntimeState) (path : String) (files : List (String × String))
      → disk.opens ≡ true
      → disk.renames ≡ true
      → J.parse (disk.written (J.dump (state_to_json J show s))) ≡ some (state_to_json J show s)
      → IsRecorded s
      → load_runtime_state J stoi (save_runtime_state J show disk s path files) path ≡ some s
  load-saved disk s path files opens renames written h =
      load-save disk s path files ∙ rw (opens, renames, written) (state_from_json-to_json s h)
