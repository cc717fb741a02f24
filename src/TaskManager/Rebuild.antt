-- ===== src/TaskManager/Rebuild.antt =====
-- `TaskManager::updatePipeline` of src/pipeline/TaskManager.cpp, which builds the tasks of a pipeline
-- anew, keeps the configuration together, with its rollback and where an exception leaves it.
use mathlib.Core.Path.{subst}
use inference_server.Shared.{
  ◌≡◌, sym, inl, inr, Bool, true, String, List, Option, none, some, arith, Bool-cases, All,
  All-mono, All-keep_if, any, find_id-replace_id, All-find_id,
}
use inference_server.Config.{
  AppConfig, StageConfig, PipelineConfig, TaskConfig, pipeline_key, task_key,
}
use inference_server.Graph.{Stage}
use inference_server.TaskManager.{TaskManager, Reply, returns, throws, Context}
use inference_server.TaskManager.Tasks.{
  replace_pipeline, erase_entries, rebuild, restore_entries, rebuilt, affected_by, update_pipeline,
  runs_pipeline, update_found,
}
use inference_server.TaskManager.Touched.{
  IsTouched, IsTouched-trans, erase_entries-IsTouched, rebuild-IsTouched, restore_entries-IsTouched,
}
use inference_server.TaskManager.Integrity.{IsClosed, has_task}
use inference_server.TaskManager.Upkeep.{touched-IsClosed, persist-IsClosed}

-- Tasks whose identifiers the configuration knows.
abbrev Known : AppConfig → List TaskConfig → Type 0
Known cfg ts = All (λ t. has_task cfg t.id ≡ true) ts

module _ {P : Type 0} where
  replace_pipeline-IsClosed :
      (m : TaskManager P) (p : PipelineConfig) → IsClosed m → IsClosed (replace_pipeline m p)
  replace_pipeline-IsClosed m p c = record {
    tasks =
        All-mono _ _ m.cfg.tasks
          (λ t h. ground (arith, find_id-replace_id pipeline_key m.cfg.pipelines p t.pipeline_id))
          c.tasks;
    entries = c.entries;
  }

  module _ (create : StageConfig → Context → Option Stage) (fails : String → String → Bool) where
    rebuild-IsClosed :
        (m : TaskManager P) (ts : List TaskConfig)
        → IsClosed m
        → Known m.cfg ts
        → IsClosed (rebuild create fails (erase_entries m ts) ts).1
    rebuild-IsClosed m ts c known = touched-IsClosed m _ c (
        IsTouched-trans (has_task m.cfg) (erase_entries-IsTouched (has_task m.cfg) m ts)
          (rebuild-IsTouched (has_task m.cfg) create fails (erase_entries m ts) ts known))

    restore_entries-IsClosed :
        (m : TaskManager P) (ts : List TaskConfig)
        → IsClosed m
        → Known m.cfg ts
        → IsClosed (restore_entries create fails (erase_entries m ts) ts).1
    restore_entries-IsClosed m ts c known = touched-IsClosed m _ c (
        IsTouched-trans (has_task m.cfg) (erase_entries-IsTouched (has_task m.cfg) m ts)
          (restore_entries-IsTouched (has_task m.cfg) create fails (erase_entries m ts) ts known))

    rebuild-Known :
        (m : TaskManager P) (ts : List TaskConfig)
        → Known m.cfg ts
        → Known (rebuild create fails (erase_entries m ts) ts).1.cfg ts
    rebuild-Known m ts known = subst (λ g. Known g ts) (sym touched.frame.cfg) known
      where
        touched : IsTouched (has_task m.cfg) m (rebuild create fails (erase_entries m ts) ts).1
        touched =
            IsTouched-trans (has_task m.cfg) (erase_entries-IsTouched (has_task m.cfg) m ts)
              (rebuild-IsTouched (has_task m.cfg) create fails (erase_entries m ts) ts known)

    rebuilt-IsClosed :
        (backup : PipelineConfig) (ts : List TaskConfig) (r : Option Reply × TaskManager P)
        → IsClosed r.1
        → Known r.1.cfg ts
        → IsClosed (rebuilt create fails backup ts r).1
    rebuilt-IsClosed backup ts (none, m) c known = persist-IsClosed m c
    rebuilt-IsClosed backup ts (some throws, m) c known = c
    rebuilt-IsClosed backup ts (some (returns b), m) c known =
        restore_entries-IsClosed (replace_pipeline m backup) ts
          (replace_pipeline-IsClosed m backup c) known

    update_found-IsClosed :
        (m : TaskManager P) (p : PipelineConfig) (o : Option PipelineConfig)
        → IsClosed m
        → IsClosed (update_found create fails m p o).1
    update_found-IsClosed m p none c = c
    update_found-IsClosed m p (some backup) c =
        elim (Bool-cases (any (runs_pipeline m p.id) m.cfg.tasks)) [
          | inl e ↦ simp e c
          | inr e ↦ simp e (
              rebuilt-IsClosed backup (affected_by create fails m p.id) _
                (rebuild-IsClosed (replace_pipeline m p) (affected_by create fails m p.id)
                  (replace_pipeline-IsClosed m p c) known)
                (rebuild-Known (replace_pipeline m p) (affected_by create fails m p.id) known))
        ]
      where
        known : Known m.cfg (affected_by create fails m p.id)
        known = All-keep_if _ _ m.cfg.tasks (All-find_id task_key m.cfg.tasks)

    pub update_pipeline-IsClosed :
        (m : TaskManager P) (p : PipelineConfig)
        → IsClosed m
        → IsClosed (update_pipeline create fails m p).1
    unfolding update_pipeline
    update_pipeline-IsClosed m p c = update_found-IsClosed m p _ c
