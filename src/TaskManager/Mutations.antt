-- ===== src/TaskManager/Mutations.antt =====
-- The methods of src/pipeline/TaskManager.cpp that add, remove and update sources, pipelines, tasks
-- and models. `repo` stands for `scanModelRepository`: the models found, or `none` for an exception.
use inference_server.Shared.{
  Bool, true, false, not, ◌&&◌, ◌||◌, String, List, [], ◌∷◌, ◌++◌, Option, none, some, str_eq,
  if◌then◌else◌, find_id, erase_id, any, is_some,
}
use inference_server.Config.{
  AppConfig, PipelineSourceConfig, PipelineConfig, TaskConfig, ModelConfig, source_key,
  pipeline_key, model_key, find_source, find_pipeline, find_task, find_model,
}
use inference_server.RuntimeState.Lookup.{forget}
use inference_server.TaskManager.{TaskManager, Entry, Reply, returns, persist, find_infer_model_id}
use inference_server.TaskManager.Entries.{is_running}

-- Whether a task's pipeline has the model; false where the task or its pipeline is not found.
abbrev pipeline_has_model : String → Option PipelineConfig → Bool
pipeline_has_model id none = false
pipeline_has_model id (some pl) = str_eq (find_infer_model_id pl.nodes) id

abbrev task_has_model : AppConfig → String → Option TaskConfig → Bool
task_has_model cfg id none = false
task_has_model cfg id (some task) = pipeline_has_model id (find_pipeline cfg task.pipeline_id)

module _ {P : Type 0} where
  -- ---- sources
  unfoldable pub add_source : TaskManager P → PipelineSourceConfig → Reply × TaskManager P
  add_source m src = if is_some (find_source m.cfg src.id) then (returns false, m) else (
    returns true,
    persist (record m {
      cfg = record (m.cfg) { sources = m.cfg.sources ++ src ∷ [] };
      runtime_state = record (m.runtime_state) {
        removed_source_ids = forget m.runtime_state.removed_source_ids src.id;
        added_sources = m.runtime_state.added_sources ++ src ∷ [];
      };
    }),
  )

  unfoldable pub remove_source : TaskManager P → String → Reply × TaskManager P
  remove_source m id =
      if not (is_some (find_source m.cfg id)) || any (λ t. str_eq t.source_id id) m.cfg.tasks
      then (returns false, m)
      else (
        returns true,
        persist (record m {
          cfg = record (m.cfg) { sources = erase_id source_key m.cfg.sources id };
          runtime_state = record (m.runtime_state) {
            added_sources = erase_id source_key m.runtime_state.added_sources id;
            removed_source_ids = m.runtime_state.removed_source_ids ++ id ∷ [];
          };
        }),
      )

  -- ---- pipelines
  unfoldable pub add_pipeline : TaskManager P → PipelineConfig → Reply × TaskManager P
  add_pipeline m pipeline =
      if is_some (find_pipeline m.cfg pipeline.id) then (returns false, m) else (
        returns true,
        persist (record m {
          cfg = record (m.cfg) { pipelines = m.cfg.pipelines ++ pipeline ∷ [] };
          runtime_state = record (m.runtime_state) {
            removed_pipeline_ids = forget m.runtime_state.removed_pipeline_ids pipeline.id;
            added_pipelines = m.runtime_state.added_pipelines ++ pipeline ∷ [];
          };
        }),
      )

  unfoldable pub remove_pipeline : TaskManager P → String → Reply × TaskManager P
  remove_pipeline m id =
      if not (is_some (find_pipeline m.cfg id)) || any (λ t. str_eq t.pipeline_id id) m.cfg.tasks
      then (returns false, m)
      else (
        returns true,
        persist (record m {
          cfg = record (m.cfg) { pipelines = erase_id pipeline_key m.cfg.pipelines id };
          runtime_state = record (m.runtime_state) {
            added_pipelines = erase_id pipeline_key m.runtime_state.added_pipelines id;
            removed_pipeline_ids = m.runtime_state.removed_pipeline_ids ++ id ∷ [];
          };
        }),
      )

  -- ---- models
  unfoldable pub load_model : TaskManager P → ModelConfig → Reply × TaskManager P
  load_model m model = if is_some (find_model m.cfg model.id) then (returns false, m) else (
    returns true,
    persist (record m {
      cfg = record (m.cfg) { models = m.cfg.models ++ model ∷ [] };
      runtime_state = record (m.runtime_state) {
        removed_model_ids = forget m.runtime_state.removed_model_ids model.id;
        added_models = m.runtime_state.added_models ++ model ∷ [];
      };
    }),
  )

  abbrev pub uses_model : AppConfig → String → String × Entry P → Bool
  uses_model cfg id (tid, entry) = is_running entry && task_has_model cfg id (find_task cfg tid)

  unfoldable pub unload_model : TaskManager P → String → Reply × TaskManager P
  unload_model m id =
      if not (is_some (find_model m.cfg id)) || any (uses_model m.cfg id) m.entries
      then (returns false, m)
      else (
        returns true,
        persist (record m {
          cfg = record (m.cfg) { models = erase_id model_key m.cfg.models id };
          runtime_state = record (m.runtime_state) {
            added_models = erase_id model_key m.runtime_state.added_models id;
            removed_model_ids = m.runtime_state.removed_model_ids ++ id ∷ [];
          };
        }),
      )

  abbrev pub load_found : TaskManager P → Option ModelConfig → Reply × TaskManager P
  load_found m none = (returns false, m)
  load_found m (some model) = load_model m model

  abbrev pub load_scanned :
      TaskManager P → String → Option (List ModelConfig) → Reply × TaskManager P
  load_scanned m id none = (returns false, m)
  load_scanned m id (some repo) = load_found m (find_id model_key repo id)

  unfoldable pub load_from_repository :
      (String → Option (List ModelConfig)) → TaskManager P → String → Reply × TaskManager P
  load_from_repository repo m id =
      if str_eq m.cfg.model_repository ""
      then (returns false, m)
      else load_scanned m id (repo m.cfg.model_repository)
