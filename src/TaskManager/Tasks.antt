-- ===== src/TaskManager/Tasks.antt =====
-- The methods of src/pipeline/TaskManager.cpp that add, update and remove tasks, and the one that
-- updates a pipeline and rebuilds its tasks.
use inference_server.Shared.{
  Bool, true, false, not, ◌&&◌, ◌||◌, String, List, [], ◌∷◌, ◌++◌, Option, none, some, str_eq,
  if◌then◌else◌, lookup, erase, erase_id, replace_id, keep_if, any, is_some,
}
use inference_server.Config.{
  StageConfig, PipelineConfig, TaskConfig, pipeline_key, task_key, find_source, find_pipeline,
}
use inference_server.RuntimeState.Lookup.{forget}
use inference_server.Graph.{Stage}
use inference_server.TaskManager.{
  TaskManager, Entry, Reply, returns, throws, Context, build_entry, persist,
}
use inference_server.TaskManager.Entries.{is_running}

module _ {P : Type 0} where
  abbrev pub has_entry : TaskManager P → String → Bool
  has_entry m id = is_some (lookup m.entries id)

  abbrev pub runs : Option (Entry P) → Bool
  runs none = false
  runs (some e) = is_running e

  -- An executor that still runs is stopped and then dropped with its entry.
  unfoldable pub remove_task : TaskManager P → String → Reply × TaskManager P
  remove_task m id = if not (has_entry m id) then (returns false, m) else (
    returns true,
    persist (record m {
      entries = erase m.entries id;
      cfg = record (m.cfg) { tasks = erase_id task_key m.cfg.tasks id };
      runtime_state = record (m.runtime_state) {
        added_tasks = erase_id task_key m.runtime_state.added_tasks id;
        removed_task_ids = m.runtime_state.removed_task_ids ++ id ∷ [];
      };
    }),
  )

  -- The task is recorded in the configuration and in the changes.
  abbrev pub record_task : TaskManager P → TaskConfig → TaskManager P
  record_task m task = record m {
    cfg = record (m.cfg) { tasks = m.cfg.tasks ++ task ∷ [] };
    runtime_state = record (m.runtime_state) {
      removed_task_ids = forget m.runtime_state.removed_task_ids task.id;
      added_tasks = m.runtime_state.added_tasks ++ task ∷ [];
    };
  }

  -- The manager of `updateTask` before the entry is built again.
  abbrev pub replace_task : TaskManager P → TaskConfig → TaskManager P
  replace_task m task = record m {
    entries = erase m.entries task.id;
    cfg = record (m.cfg) { tasks = replace_id task_key m.cfg.tasks task };
    runtime_state = record (m.runtime_state) {
      added_tasks = replace_id task_key m.runtime_state.added_tasks task;
    };
  }

  abbrev pub replace_pipeline : TaskManager P → PipelineConfig → TaskManager P
  replace_pipeline m pipeline = record m {
    cfg = record (m.cfg) { pipelines = replace_id pipeline_key m.cfg.pipelines pipeline };
    runtime_state = record (m.runtime_state) {
      added_pipelines = replace_id pipeline_key m.runtime_state.added_pipelines pipeline;
    };
  }

  unfoldable pub erase_entries : TaskManager P → List TaskConfig → TaskManager P
  erase_entries m [] = m
  erase_entries m (t ∷ ts) = erase_entries (record m { entries = erase m.entries t.id }) ts

  abbrev pub runs_pipeline : TaskManager P → String → TaskConfig → Bool
  runs_pipeline m id t = str_eq t.pipeline_id id && runs (lookup m.entries t.id)

  module _ (create : StageConfig → Context → Option Stage) (fails : String → String → Bool) where
    abbrev pub recorded : TaskConfig → Reply × TaskManager P → Reply × TaskManager P
    recorded task (returns true, m) = (returns true, persist (record_task m task))
    recorded task (returns false, m) = (returns false, m)
    recorded task (throws, m) = (throws, m)

    unfoldable pub add_task : TaskManager P → TaskConfig → Bool → Reply × TaskManager P
    add_task m task autostart =
        if has_entry m task.id
        then (returns false, m)
        else recorded task (build_entry create fails m task autostart)

    -- What `buildEntry` returns is ignored; an exception leaves the method before the changes are
    -- saved.
    abbrev pub updated : Reply × TaskManager P → Reply × TaskManager P
    updated (returns b, m) = (returns true, persist m)
    updated (throws, m) = (throws, m)

    unfoldable pub update_task : TaskManager P → TaskConfig → Reply × TaskManager P
    update_task m task =
        if not (has_entry m task.id)
          || (runs (lookup m.entries task.id)
              || (not (is_some (find_source m.cfg task.source_id))
                  || not (is_some (find_pipeline m.cfg task.pipeline_id))))
        then (returns false, m)
        else updated (build_entry create fails (replace_task m task) task false)

    -- The loop that restores the entries, which goes on where one cannot be built.
    abbrev pub restore_next :
        Reply × TaskManager P → (TaskManager P → Reply × TaskManager P) → Reply × TaskManager P
    restore_next (throws, m) rest = (throws, m)
    restore_next (returns b, m) rest = rest m

    unfoldable pub restore_entries : TaskManager P → List TaskConfig → Reply × TaskManager P
    restore_entries m [] = (returns false, m)
    restore_entries m (t ∷ ts) =
        restore_next (build_entry create fails m t false) (λ m'. restore_entries m' ts)

    -- `updatePipeline` after a task could not be built: the old pipeline and its entries come back.
    abbrev pub restore : PipelineConfig → List TaskConfig → TaskManager P → Reply × TaskManager P
    restore backup affected m =
        restore_entries (erase_entries (replace_pipeline m backup) affected) affected

    -- The loop that builds the affected tasks; `none` stands for success.
    abbrev pub rebuild_next :
        Reply × TaskManager P
        → (TaskManager P → Option Reply × TaskManager P)
        → Option Reply × TaskManager P
    rebuild_next (throws, m) rest = (some throws, m)
    rebuild_next (returns false, m) rest = (some (returns false), m)
    rebuild_next (returns true, m) rest = rest m

    unfoldable pub rebuild : TaskManager P → List TaskConfig → Option Reply × TaskManager P
    rebuild m [] = (none, m)
    rebuild m (t ∷ ts) = rebuild_next (build_entry create fails m t false) (λ m'. rebuild m' ts)

    abbrev pub rebuilt :
        PipelineConfig → List TaskConfig → Option Reply × TaskManager P → Reply × TaskManager P
    rebuilt backup affected (none, m) = (returns true, persist m)
    rebuilt backup affected (some throws, m) = (throws, m)
    rebuilt backup affected (some (returns b), m) = restore backup affected m

    abbrev pub affected_by : TaskManager P → String → List TaskConfig
    affected_by m id = keep_if (λ t. str_eq t.pipeline_id id) m.cfg.tasks

    abbrev pub update_found :
        TaskManager P → PipelineConfig → Option PipelineConfig → Reply × TaskManager P
    update_found m pipeline none = (returns false, m)
    update_found m pipeline (some backup) =
        if any (runs_pipeline m pipeline.id) m.cfg.tasks
        then (returns false, m)
        else (let affected = affected_by m pipeline.id in
            rebuilt backup affected
              (rebuild (erase_entries (replace_pipeline m pipeline) affected) affected))

    unfoldable pub update_pipeline : TaskManager P → PipelineConfig → Reply × TaskManager P
    update_pipeline m pipeline = update_found m pipeline (find_pipeline m.cfg pipeline.id)
