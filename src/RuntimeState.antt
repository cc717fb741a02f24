-- ===== src/RuntimeState.antt =====
-- src/common/RuntimeState.cpp and include/common/RuntimeState.h: the changes made at run time, which
-- are saved and applied to the base configuration at the next start.
--
-- Loading has the file that is written and read; elsewhere the state that is saved is the one that is loaded.
pub mod Lookup
pub mod Recovery
pub mod Writing
pub mod Reading
pub mod Loading
pub mod RoundTrip
pub mod Saved
pub mod Restored
pub mod Maps
mod Samples
mod Stored
use inference_server.Shared.{
  Bool, String, List, [], ◌∷◌, ◌++◌, find_id, erase_id, is_some, if◌then◌else◌,
}
use inference_server.Config.{
  AppConfig, PipelineSourceConfig, PipelineConfig, TaskConfig, ModelConfig, source_key,
  pipeline_key, task_key, model_key,
}

pub record RuntimeState : Type 0 where
  pub added_sources : List PipelineSourceConfig
  pub removed_source_ids : List String
  pub added_pipelines : List PipelineConfig
  pub removed_pipeline_ids : List String
  pub added_tasks : List TaskConfig
  pub removed_task_ids : List String
  pub added_models : List ModelConfig
  pub removed_model_ids : List String

module _ {A : Type 0} (key : A → String) where
  -- The lambda `eraseById`.
  unfoldable pub erase_by_id : List A → List String → List A
  erase_by_id vec [] = vec
  erase_by_id vec (id ∷ ids) = erase_by_id (erase_id key vec id) ids

  -- The lambda `hasId`.
  abbrev pub has_id : List A → String → Bool
  has_id vec id = is_some (find_id key vec id)

  -- The loop that appends the added entries.
  unfoldable pub append_missing : List A → List A → List A
  append_missing vec [] = vec
  append_missing vec (x ∷ xs) =
      append_missing (if has_id vec (key x) then vec else vec ++ x ∷ []) xs

  abbrev pub apply_delta : List A → List String → List A → List A
  apply_delta base removed added = append_missing (erase_by_id base removed) added

unfoldable pub apply_runtime_state : AppConfig → RuntimeState → AppConfig
apply_runtime_state cfg state = record cfg {
  sources = apply_delta source_key cfg.sources state.removed_source_ids state.added_sources;
  pipelines =
      apply_delta pipeline_key cfg.pipelines state.removed_pipeline_ids state.added_pipelines;
  tasks = apply_delta task_key cfg.tasks state.removed_task_ids state.added_tasks;
  models = apply_delta model_key cfg.models state.removed_model_ids state.added_models;
}
