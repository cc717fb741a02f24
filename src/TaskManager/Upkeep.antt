-- ===== src/TaskManager/Upkeep.antt =====
-- The methods of src/pipeline/TaskManager.cpp that build entries (`addTask`, `updateTask`,
-- `updatePipeline`) keep the configuration together, also where an exception leaves them.
use mathlib.Core.Path.{subst}
use inference_server.Shared.{
  ◌≡◌, refl, sym, ap, inl, inr, Bool, true, false, not, ◌||◌, String, [], ◌∷◌, Option, none, some,
  arith, lookup, insert, lookup-insert, lookup-erase, if◌then◌else◌, Bool-cases, str_eq, All,
  All-append, is_some, find_id, find_id-append, find_id-replace_id, All-replace_id,
}
use inference_server.Config.{
  StageConfig, PipelineSourceConfig, PipelineConfig, TaskConfig, task_key,
}
use inference_server.Graph.{Stage}
use inference_server.TaskManager.{
  TaskManager, Entry, Reply, returns, throws, Context, build_entry, build_found, persist,
}
use inference_server.TaskManager.Frame.{Built, build_entry_cases}
use inference_server.TaskManager.Tasks.{
  has_entry, runs, recorded, record_task, replace_task, updated, add_task, update_task,
}
use inference_server.TaskManager.Touched.{IsTouched, build_entry-IsTouched}
use inference_server.TaskManager.Integrity.{IsClosed, IsLinked, has_source, has_pipeline, has_task}

find_one :
    (task : TaskConfig) (j : String)
    → find_id task_key (task ∷ []) j ≡ (if str_eq task.id j then some task else none)
unfolding find_id
find_one task j = refl

module _ {P : Type 0} where
  -- Steps that write only entries of known tasks.
  pub touched-IsClosed :
      (m m' : TaskManager P) → IsClosed m → IsTouched (has_task m.cfg) m m' → IsClosed m'
  touched-IsClosed m m' c t = record {
    tasks = subst (λ g. All (IsLinked g) g.tasks) (sym t.frame.cfg) c.tasks;
    entries =
        λ id h. ground (arith, t.entries id h, c.entries id, ap (λ g. has_task g id) t.frame.cfg);
  }

  pub persist-IsClosed : (m : TaskManager P) → IsClosed m → IsClosed (persist m)
  persist-IsClosed m c = record { tasks = c.tasks; entries = c.entries }

  -- The manager after an entry is put in for a task that is recorded.
  record_task-IsClosed :
      (m : TaskManager P) (task : TaskConfig) (e : Entry P)
      → IsClosed m
      → IsLinked m.cfg task
      → IsClosed (record_task (record m { entries = insert m.entries task.id e }) task)
  record_task-IsClosed m task e c links = record {
    tasks = All-append (IsLinked m.cfg) m.cfg.tasks (task ∷ []) c.tasks (links, tt);
    entries = λ j h. ground (
      arith,
      c.entries j,
      lookup-insert m.entries task.id e j,
      find_id-append task_key m.cfg.tasks (task ∷ []) j,
      find_one task j,
    );
  }

  module _ (create : StageConfig → Context → Option Stage) (fails : String → String → Bool) where
    build_found-IsLinked :
        (m : TaskManager P) (task : TaskConfig) (autostart : Bool)
        (source : Option PipelineSourceConfig) (pipeline : Option PipelineConfig)
        → (build_found create fails m task autostart source pipeline).0 ≡ returns true
        → (is_some source ≡ true) × (is_some pipeline ≡ true)
    unfolding build_found
    build_found-IsLinked m task autostart (some source) (some pipeline) h = (refl, refl)
    build_found-IsLinked m task autostart none pipeline h = cc
    build_found-IsLinked m task autostart (some source) none h = cc

    build_entry-IsLinked :
        (m : TaskManager P) (task : TaskConfig) (autostart : Bool)
        → (build_entry create fails m task autostart).0 ≡ returns true
        → IsLinked m.cfg task
    unfolding build_entry
    build_entry-IsLinked m task autostart h = build_found-IsLinked m task autostart _ _ h

    recorded-IsClosed :
        (m : TaskManager P) (task : TaskConfig) (r : Reply × TaskManager P)
        → IsClosed m
        → Built m task r
        → (r.0 ≡ returns true → IsLinked m.cfg task)
        → IsClosed (recorded create fails task r).1
    recorded-IsClosed m task (throws, m') c (inl (same, _)) links = subst IsClosed (sym same) c
    recorded-IsClosed m task (returns false, m') c (inl (same, _)) links =
        subst IsClosed (sym same) c
    recorded-IsClosed m task (returns true, m') c (inl (_, not_true)) links = absurd (not_true refl)
    recorded-IsClosed m task (throws, m') c (inr (e, put, _)) links = cc
    recorded-IsClosed m task (returns false, m') c (inr (e, put, _)) links = cc
    recorded-IsClosed m task (returns true, m') c (inr (e, put, _)) links =
        subst (λ s. IsClosed (persist (record_task s task))) (sym (ap (λ s. s.1) put))
          (persist-IsClosed _ (record_task-IsClosed m task e c (links refl)))

    pub add_task-IsClosed :
        (m : TaskManager P) (task : TaskConfig) (autostart : Bool)
        → IsClosed m
        → IsClosed (add_task create fails m task autostart).1
    unfolding add_task
    add_task-IsClosed m task autostart c = elim (Bool-cases (has_entry m task.id)) [
      | inl e ↦ simp e c
      | inr e ↦ simp e (
          recorded-IsClosed m task _ c (build_entry_cases create fails m task autostart)
            (build_entry-IsLinked m task autostart))
    ]

    replace_task-IsClosed :
        (m : TaskManager P) (task : TaskConfig)
        → IsClosed m
        → IsLinked m.cfg task
        → IsClosed (replace_task m task)
    replace_task-IsClosed m task c links = record {
      tasks = All-replace_id task_key (IsLinked m.cfg) m.cfg.tasks task c.tasks links;
      entries = λ j h. ground (
        arith,
        c.entries j,
        lookup-erase m.entries task.id j,
        find_id-replace_id task_key m.cfg.tasks task j,
      );
    }

    updated-IsClosed :
        (r : Reply × TaskManager P) → IsClosed r.1 → IsClosed (updated create fails r).1
    updated-IsClosed (returns b, m) c = persist-IsClosed m c
    updated-IsClosed (throws, m) c = c

    has_task-replace_task :
        (m : TaskManager P) (task : TaskConfig)
        → has_task m.cfg task.id ≡ true
        → has_task (replace_task m task).cfg task.id ≡ true
    has_task-replace_task m task h =
        ground (arith, find_id-replace_id task_key m.cfg.tasks task task.id)

    pub update_task-IsClosed :
        (m : TaskManager P) (task : TaskConfig)
        → IsClosed m
        → IsClosed (update_task create fails m task).1
    unfolding update_task
    update_task-IsClosed m task c =
        elim (Bool-cases (
          not (has_entry m task.id)
          || (runs (lookup m.entries task.id)
              || (not (has_source m.cfg task.source_id)
                  || not (has_pipeline m.cfg task.pipeline_id))))) [
                    | inl e ↦ simp e c
                    | inr e ↦ simp e (
                        updated-IsClosed _ (
                          touched-IsClosed (replace_task m task) _
                            (replace_task-IsClosed m task c (ground arith))
                            (build_entry-IsTouched _ create fails (replace_task m task) task false
                              (has_task-replace_task m task (c.entries task.id (ground arith))))))
                  ]
