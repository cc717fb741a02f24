-- ===== src/TaskManager/Restart.antt =====
-- A restart after changes at run time (src/pipeline/TaskManager.cpp, src/common/RuntimeState.cpp): what
-- the constructor finds, given the base configuration and the changes that were saved last.
pub mod Sequences
use mathlib.Core.Path.{subst}
use inference_server.Shared.{
  All, sym, ◌≡◌, refl, ap, inl, inr, Bool, true, false, not, ◌||◌, String, List, [], ◌∷◌, ◌++◌,
  Option, none, some, is_some, any, arith, Bool-cases, str_eq, erase_id, find_id, if◌then◌else◌,
}
use inference_server.Config.{
  AppConfig, PipelineSourceConfig, PipelineConfig, ModelConfig, source_key, pipeline_key, task_key,
  model_key, find_source, find_pipeline, find_task, find_model,
}
use inference_server.RuntimeState.{RuntimeState, apply_runtime_state}
use inference_server.RuntimeState.Recovery.{Recovers, add-Recovers, remove-Recovers}
use inference_server.TaskManager.{TaskManager, Reply}
use inference_server.TaskManager.Mutations.{
  add_source, remove_source, add_pipeline, remove_pipeline, load_model, unload_model, uses_model,
}
use inference_server.TaskManager.Tasks.{remove_task, has_entry}

-- Changes that are saved.
pub data Edit : Type 0 where
  adds_source : PipelineSourceConfig → Edit
  adds_pipeline : PipelineConfig → Edit
  loads_model : ModelConfig → Edit
  removes_source removes_pipeline removes_task unloads_model : String → Edit

-- What is added has an identifier that the base configuration does not have.
abbrev pub IsNew : AppConfig → Edit → Type 0
IsNew base (adds_source src) = find_source base src.id ≡ none
IsNew base (adds_pipeline p) = find_pipeline base p.id ≡ none
IsNew base (loads_model m) = find_model base m.id ≡ none
IsNew base _ = Unit

pub is_some-none : {A : Type 0} (o : Option A) → is_some o ≡ false → o ≡ none
is_some-none none h = refl
is_some-none (some a) h = cc

module _ {P : Type 0} where
  unfoldable pub edit : TaskManager P → Edit → TaskManager P
  edit m (adds_source src) = (add_source m src).1
  edit m (adds_pipeline p) = (add_pipeline m p).1
  edit m (loads_model x) = (load_model m x).1
  edit m (removes_source id) = (remove_source m id).1
  edit m (removes_pipeline id) = (remove_pipeline m id).1
  edit m (removes_task id) = (remove_task m id).1
  edit m (unloads_model id) = (unload_model m id).1

  unfoldable pub edit_all : TaskManager P → List Edit → TaskManager P
  edit_all m [] = m
  edit_all m (e ∷ es) = edit_all (edit m e) es

-- The state that the last save was given, or the one that was there at first.
abbrev pub latest : RuntimeState → List RuntimeState → RuntimeState
latest first [] = first
latest first (s ∷ ss) = s

-- `first` is what the file of the saved changes holds before the first save.
module _ {P : Type 0} (base : AppConfig) (first : RuntimeState) where
  pub record IsRecoverable (m : TaskManager P) : Type 0 where
    pub saved : latest first m.saves ≡ m.runtime_state
    pub sources :
        Recovers source_key base.sources m.runtime_state.removed_source_ids
          m.runtime_state.added_sources m.cfg.sources
    pub pipelines :
        Recovers pipeline_key base.pipelines m.runtime_state.removed_pipeline_ids
          m.runtime_state.added_pipelines m.cfg.pipelines
    pub tasks :
        Recovers task_key base.tasks m.runtime_state.removed_task_ids m.runtime_state.added_tasks
          m.cfg.tasks
    pub models :
        Recovers model_key base.models m.runtime_state.removed_model_ids
          m.runtime_state.added_models m.cfg.models

  add_source-IsRecoverable :
      (m : TaskManager P) (src : PipelineSourceConfig)
      → find_source base src.id ≡ none
      → IsRecoverable m
      → IsRecoverable (add_source m src).1
  unfolding add_source
  add_source-IsRecoverable m src new r = elim (Bool-cases (is_some (find_source m.cfg src.id))) [
    | inl e ↦ simp e r
    | inr e ↦ simp e (record {
      saved = refl;
      sources =
          add-Recovers source_key base.sources _ _ m.cfg.sources src r.sources (is_some-none _ e)
            new;
      pipelines = r.pipelines;
      tasks = r.tasks;
      models = r.models;
    })
  ]

  add_pipeline-IsRecoverable :
      (m : TaskManager P) (p : PipelineConfig)
      → find_pipeline base p.id ≡ none
      → IsRecoverable m
      → IsRecoverable (add_pipeline m p).1
  unfolding add_pipeline
  add_pipeline-IsRecoverable m p new r = elim (Bool-cases (is_some (find_pipeline m.cfg p.id))) [
    | inl e ↦ simp e r
    | inr e ↦ simp e (record {
      saved = refl;
      sources = r.sources;
      pipelines =
          add-Recovers pipeline_key base.pipelines _ _ m.cfg.pipelines p r.pipelines
            (is_some-none _ e) new;
      tasks = r.tasks;
      models = r.models;
    })
  ]

  load_model-IsRecoverable :
      (m : TaskManager P) (x : ModelConfig)
      → find_model base x.id ≡ none
      → IsRecoverable m
      → IsRecoverable (load_model m x).1
  unfolding load_model
  load_model-IsRecoverable m x new r = elim (Bool-cases (is_some (find_model m.cfg x.id))) [
    | inl e ↦ simp e r
    | inr e ↦ simp e (record {
      saved = refl;
      sources = r.sources;
      pipelines = r.pipelines;
      tasks = r.tasks;
      models =
          add-Recovers model_key base.models _ _ m.cfg.models x r.models (is_some-none _ e) new;
    })
  ]

  remove_source-IsRecoverable :
      (m : TaskManager P) (id : String) → IsRecoverable m → IsRecoverable (remove_source m id).1
  unfolding remove_source
  remove_source-IsRecoverable m id r =
      elim (Bool-cases
        (not (is_some (find_source m.cfg id)) || any (λ t. str_eq t.source_id id) m.cfg.tasks)) [
          | inl e ↦ simp e r
          | inr e ↦ simp e (record {
            saved = refl;
            sources = remove-Recovers source_key base.sources _ _ m.cfg.sources id r.sources;
            pipelines = r.pipelines;
            tasks = r.tasks;
            models = r.models;
          })
        ]

  remove_pipeline-IsRecoverable :
      (m : TaskManager P) (id : String) → IsRecoverable m → IsRecoverable (remove_pipeline m id).1
  unfolding remove_pipeline
  remove_pipeline-IsRecoverable m id r =
      elim (Bool-cases (
        not (is_some (find_pipeline m.cfg id)) || any (λ t. str_eq t.pipeline_id id) m.cfg.tasks)) [
          | inl e ↦ simp e r
          | inr e ↦ simp e (record {
            saved = refl;
            sources = r.sources;
            pipelines =
                remove-Recovers pipeline_key base.pipelines _ _ m.cfg.pipelines id r.pipelines;
            tasks = r.tasks;
            models = r.models;
          })
        ]

  remove_task-IsRecoverable :
      (m : TaskManager P) (id : String) → IsRecoverable m → IsRecoverable (remove_task m id).1
  unfolding remove_task
  remove_task-IsRecoverable m id r = elim (Bool-cases (has_entry m id)) [
    | inr e ↦ simp e r
    | inl e ↦ simp e (record {
      saved = refl;
      sources = r.sources;
      pipelines = r.pipelines;
      tasks = remove-Recovers task_key base.tasks _ _ m.cfg.tasks id r.tasks;
      models = r.models;
    })
  ]

  unload_model-IsRecoverable :
      (m : TaskManager P) (id : String) → IsRecoverable m → IsRecoverable (unload_model m id).1
  unfolding unload_model
  unload_model-IsRecoverable m id r =
      elim (Bool-cases
        (not (is_some (find_model m.cfg id)) || any (uses_model m.cfg id) m.entries)) [
          | inl e ↦ simp e r
          | inr e ↦ simp e (record {
            saved = refl;
            sources = r.sources;
            pipelines = r.pipelines;
            tasks = r.tasks;
            models = remove-Recovers model_key base.models _ _ m.cfg.models id r.models;
          })
        ]

  pub edit-IsRecoverable :
      (m : TaskManager P) (e : Edit) → IsNew base e → IsRecoverable m → IsRecoverable (edit m e)
  unfolding edit
  edit-IsRecoverable m (adds_source src) new r = add_source-IsRecoverable m src new r
  edit-IsRecoverable m (adds_pipeline p) new r = add_pipeline-IsRecoverable m p new r
  edit-IsRecoverable m (loads_model x) new r = load_model-IsRecoverable m x new r
  edit-IsRecoverable m (removes_source id) new r = remove_source-IsRecoverable m id r
  edit-IsRecoverable m (removes_pipeline id) new r = remove_pipeline-IsRecoverable m id r
  edit-IsRecoverable m (removes_task id) new r = remove_task-IsRecoverable m id r
  edit-IsRecoverable m (unloads_model id) new r = unload_model-IsRecoverable m id r
