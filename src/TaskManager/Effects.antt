-- ===== src/TaskManager/Effects.antt =====
-- What the methods of src/pipeline/TaskManager.cpp that add and remove sources, pipelines, models and tasks do,
-- against four maps from identifiers.
use inference_server.Shared.{
  ◌≡◌, refl, inl, inr, ◌++◌, eq_iff, true, false, not, ◌||◌, String, List, [], ◌∷◌, Option, none,
  some, if◌then◌else◌, str_eq, any, is_some, arith, Bool-cases, find_id, find_id-append,
  find_id-erase_id,
}
use inference_server.Config.{
  PipelineSourceConfig, PipelineConfig, TaskConfig, ModelConfig, source_key, pipeline_key, task_key,
  model_key, find_source, find_pipeline, find_task, find_model,
}
use inference_server.TaskManager.{TaskManager, Reply, returns, throws}
use inference_server.TaskManager.Mutations.{
  add_source, remove_source, add_pipeline, remove_pipeline, load_model, unload_model, uses_model,
}
use inference_server.TaskManager.Tasks.{remove_task, has_entry}
use inference_server.TaskManager.Restart.{
  Edit, adds_source, adds_pipeline, loads_model, removes_source, removes_pipeline, removes_task,
  unloads_model, is_some-none,
}

-- A map in which one identifier is found differently.
abbrev pub update {ℓ} : {A : Type ℓ} → String → Option A → (String → Option A) → String → Option A
update k new f j = if str_eq k j then new else f j

abbrev pub sources_after :
    Edit → (String → Option PipelineSourceConfig) → String → Option PipelineSourceConfig
sources_after (adds_source src) f = update src.id (some src) f
sources_after (removes_source id) f = update id none f
sources_after _ f = f

abbrev pub pipelines_after :
    Edit → (String → Option PipelineConfig) → String → Option PipelineConfig
pipelines_after (adds_pipeline p) f = update p.id (some p) f
pipelines_after (removes_pipeline id) f = update id none f
pipelines_after _ f = f

abbrev pub tasks_after : Edit → (String → Option TaskConfig) → String → Option TaskConfig
tasks_after (removes_task id) f = update id none f
tasks_after _ f = f

abbrev pub models_after : Edit → (String → Option ModelConfig) → String → Option ModelConfig
models_after (loads_model x) f = update x.id (some x) f
models_after (unloads_model id) f = update id none f
models_after _ f = f

-- An entry that is put behind the others is found, and so are the others.
find_id-put :
    {A : Type 0} (key : A → String) (xs : List A) (x : A) (j : String)
    → is_some (find_id key xs (key x)) ≡ false
    → find_id key (xs ++ x ∷ []) j ≡ update (key x) (some x) (find_id key xs) j
unfolding find_id
find_id-put key xs x j new =
    ground (arith, find_id-append key xs (x ∷ []) j, eq_iff (key x) j, is_some-none _ new)

module _ {P : Type 0} where
  -- The method that an edit calls.
  abbrev pub call : TaskManager P → Edit → Reply × TaskManager P
  call m (adds_source src) = add_source m src
  call m (adds_pipeline p) = add_pipeline m p
  call m (loads_model x) = load_model m x
  call m (removes_source id) = remove_source m id
  call m (removes_pipeline id) = remove_pipeline m id
  call m (removes_task id) = remove_task m id
  call m (unloads_model id) = unload_model m id

  -- The new state was given to the save, and the four maps differ by the edit.
  pub record IsEdited (m : TaskManager P) (e : Edit) (n : TaskManager P) : Type 0 where
    pub saves : n.saves ≡ n.runtime_state ∷ m.saves
    pub sources : (j : String) → find_source n.cfg j ≡ sources_after e (find_source m.cfg) j
    pub pipelines : (j : String) → find_pipeline n.cfg j ≡ pipelines_after e (find_pipeline m.cfg) j
    pub tasks : (j : String) → find_task n.cfg j ≡ tasks_after e (find_task m.cfg) j
    pub models : (j : String) → find_model n.cfg j ≡ models_after e (find_model m.cfg) j

  abbrev pub Done : TaskManager P → Edit → Reply × TaskManager P → Type 0
  Done m e (returns true, n) = IsEdited m e n
  Done m e (returns false, n) = n ≡ m
  Done m e (throws, n) = ⊥

  -- Whatever the manager, a call that adds or removes a source or a pipeline, loads or unloads a
  -- model or removes a task and returns true has changed what is found under its identifier, and
  -- under no other, in the one map that it is about, has left the other maps as they were, and has
  -- given the new changes to the save; one that returns false has changed nothing; and none
  -- throws.
  pub call-Done : (m : TaskManager P) (e : Edit) → Done m e (call m e)
  unfolding add_source add_pipeline load_model remove_source remove_pipeline remove_task
      unload_model
  call-Done m (adds_source src) = elim (Bool-cases (is_some (find_source m.cfg src.id))) [
    | inl e ↦ rw e refl
    | inr e ↦ rw e (record {
      saves = refl;
      sources = λ j. find_id-put source_key m.cfg.sources src j e;
      pipelines = λ j. refl;
      tasks = λ j. refl;
      models = λ j. refl;
    })
  ]
  call-Done m (adds_pipeline p) = elim (Bool-cases (is_some (find_pipeline m.cfg p.id))) [
    | inl e ↦ rw e refl
    | inr e ↦ rw e (record {
      saves = refl;
      sources = λ j. refl;
      pipelines = λ j. find_id-put pipeline_key m.cfg.pipelines p j e;
      tasks = λ j. refl;
      models = λ j. refl;
    })
  ]
  call-Done m (loads_model x) = elim (Bool-cases (is_some (find_model m.cfg x.id))) [
    | inl e ↦ rw e refl
    | inr e ↦ rw e (record {
      saves = refl;
      sources = λ j. refl;
      pipelines = λ j. refl;
      tasks = λ j. refl;
      models = λ j. find_id-put model_key m.cfg.models x j e;
    })
  ]
  call-Done m (removes_source id) =
      elim (Bool-cases
        (not (is_some (find_source m.cfg id)) || any (λ t. str_eq t.source_id id) m.cfg.tasks)) [
          | inl e ↦ rw e refl
          | inr e ↦ rw e (record {
            saves = refl;
            sources = find_id-erase_id source_key m.cfg.sources id;
            pipelines = λ j. refl;
            tasks = λ j. refl;
            models = λ j. refl;
          })
        ]
  call-Done m (removes_pipeline id) =
      elim (Bool-cases (
        not (is_some (find_pipeline m.cfg id)) || any (λ t. str_eq t.pipeline_id id) m.cfg.tasks)) [
          | inl e ↦ rw e refl
          | inr e ↦ rw e (record {
            saves = refl;
            sources = λ j. refl;
            pipelines = find_id-erase_id pipeline_key m.cfg.pipelines id;
            tasks = λ j. refl;
            models = λ j. refl;
          })
        ]
  call-Done m (removes_task id) = elim (Bool-cases (has_entry m id)) [
    | inr e ↦ rw e refl
    | inl e ↦ rw e (record {
      saves = refl;
      sources = λ j. refl;
      pipelines = λ j. refl;
      tasks = find_id-erase_id task_key m.cfg.tasks id;
      models = λ j. refl;
    })
  ]
  call-Done m (unloads_model id) =
      elim (Bool-cases
        (not (is_some (find_model m.cfg id)) || any (uses_model m.cfg id) m.entries)) [
          | inl e ↦ rw e refl
          | inr e ↦ rw e (record {
            saves = refl;
            sources = λ j. refl;
            pipelines = λ j. refl;
            tasks = λ j. refl;
            models = find_id-erase_id model_key m.cfg.models id;
          })
        ]
