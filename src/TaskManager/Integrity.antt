-- ===== src/TaskManager/Integrity.antt =====
-- The configuration of src/pipeline/TaskManager.cpp holds together: every task has its source and its
-- pipeline, and every entry has its task.
use inference_server.Shared.{
  ◌≡◌, inl, inr, Bool, true, false, not, ◌||◌, String, [], ◌∷◌, arith, lookup-erase, Bool-cases,
  str_eq, eq_iff, All, All-mono, All_zip, All_of_any, any, is_some, erase_id, find_id-append,
  find_id-erase_id, All-erase_id,
}
use inference_server.Config.{
  AppConfig, PipelineSourceConfig, PipelineConfig, TaskConfig, source_key, pipeline_key, task_key,
  find_source, find_pipeline, find_task,
}
use inference_server.TaskManager.{TaskManager}
use inference_server.TaskManager.Tasks.{has_entry, remove_task}
use inference_server.TaskManager.Mutations.{
  add_source, remove_source, add_pipeline, remove_pipeline,
}

abbrev pub has_source : AppConfig → String → Bool
has_source cfg id = is_some (find_source cfg id)

abbrev pub has_pipeline : AppConfig → String → Bool
has_pipeline cfg id = is_some (find_pipeline cfg id)

abbrev pub has_task : AppConfig → String → Bool
has_task cfg id = is_some (find_task cfg id)

-- The source and the pipeline that the task names are there.
abbrev pub IsLinked : AppConfig → TaskConfig → Type 0
IsLinked cfg t = (has_source cfg t.source_id ≡ true) × (has_pipeline cfg t.pipeline_id ≡ true)

module _ {P : Type 0} where
  pub record IsClosed (m : TaskManager P) : Type 0 where
    pub tasks : All (IsLinked m.cfg) m.cfg.tasks
    pub entries : (id : String) → has_entry m id ≡ true → has_task m.cfg id ≡ true

  pub add_source-IsClosed :
      (m : TaskManager P) (src : PipelineSourceConfig) → IsClosed m → IsClosed (add_source m src).1
  unfolding add_source
  add_source-IsClosed m src c = elim (Bool-cases (has_source m.cfg src.id)) [
    | inl e ↦ simp e c
    | inr e ↦ simp e (record {
      tasks =
          All-mono _ _ m.cfg.tasks
            (λ t h. ground (arith, find_id-append source_key m.cfg.sources (src ∷ []) t.source_id))
            c.tasks;
      entries = c.entries;
    })
  ]

  pub add_pipeline-IsClosed :
      (m : TaskManager P) (p : PipelineConfig) → IsClosed m → IsClosed (add_pipeline m p).1
  unfolding add_pipeline
  add_pipeline-IsClosed m p c = elim (Bool-cases (has_pipeline m.cfg p.id)) [
    | inl e ↦ simp e c
    | inr e ↦ simp e (record {
      tasks =
          All-mono _ _ m.cfg.tasks
            (λ t h.
              ground (arith, find_id-append pipeline_key m.cfg.pipelines (p ∷ []) t.pipeline_id))
            c.tasks;
      entries = c.entries;
    })
  ]

  -- A task that does not name what is removed keeps its links.
  remove_source-IsLinked :
      (m : TaskManager P) (id : String)
      → any (λ t. str_eq t.source_id id) m.cfg.tasks ≡ false
      → All (IsLinked m.cfg) m.cfg.tasks
      → All
          (IsLinked (record (m.cfg) { sources = erase_id source_key m.cfg.sources id }))
          m.cfg.tasks
  remove_source-IsLinked m id unused h =
      All_zip _ _ _ m.cfg.tasks
        (λ t links free. ground (
          arith,
          find_id-erase_id source_key m.cfg.sources id t.source_id,
          eq_iff id t.source_id,
          eq_iff t.source_id id,
        ))
        h (All_of_any _ m.cfg.tasks unused)

  pub remove_source-IsClosed :
      (m : TaskManager P) (id : String) → IsClosed m → IsClosed (remove_source m id).1
  unfolding remove_source
  remove_source-IsClosed m id c =
      elim (Bool-cases
        (not (has_source m.cfg id) || any (λ t. str_eq t.source_id id) m.cfg.tasks)) [
          | inl e ↦ simp e c
          | inr e ↦ simp e (record {
            tasks = remove_source-IsLinked m id (ground arith) c.tasks;
            entries = c.entries;
          })
        ]

  remove_pipeline-IsLinked :
      (m : TaskManager P) (id : String)
      → any (λ t. str_eq t.pipeline_id id) m.cfg.tasks ≡ false
      → All (IsLinked m.cfg) m.cfg.tasks
      → All
          (IsLinked (record (m.cfg) { pipelines = erase_id pipeline_key m.cfg.pipelines id }))
          m.cfg.tasks
  remove_pipeline-IsLinked m id unused h =
      All_zip _ _ _ m.cfg.tasks
        (λ t links free. ground (
          arith,
          find_id-erase_id pipeline_key m.cfg.pipelines id t.pipeline_id,
          eq_iff id t.pipeline_id,
          eq_iff t.pipeline_id id,
        ))
        h (All_of_any _ m.cfg.tasks unused)

  pub remove_pipeline-IsClosed :
      (m : TaskManager P) (id : String) → IsClosed m → IsClosed (remove_pipeline m id).1
  unfolding remove_pipeline
  remove_pipeline-IsClosed m id c =
      elim (Bool-cases
        (not (has_pipeline m.cfg id) || any (λ t. str_eq t.pipeline_id id) m.cfg.tasks)) [
          | inl e ↦ simp e c
          | inr e ↦ simp e (record {
            tasks = remove_pipeline-IsLinked m id (ground arith) c.tasks;
            entries = c.entries;
          })
        ]

  pub remove_task-IsClosed :
      (m : TaskManager P) (id : String) → IsClosed m → IsClosed (remove_task m id).1
  unfolding remove_task
  remove_task-IsClosed m id c = elim (Bool-cases (has_entry m id)) [
    | inr e ↦ simp e c
    | inl e ↦ simp e (record {
      tasks = All-erase_id task_key (IsLinked m.cfg) m.cfg.tasks id c.tasks;
      entries = λ j h. ground (
        arith,
        c.entries j,
        lookup-erase m.entries id j,
        find_id-erase_id task_key m.cfg.tasks id j,
      );
    })
  ]
