-- ===== src/TaskManager/Frame.antt =====
-- What `buildEntry` of src/pipeline/TaskManager.cpp leaves alone, and which entries it writes.
use inference_server.Shared.{
  ◌≡◌, ◌≢◌, sym, ◌∙◌, Option-cases, none-ne-some, refl, ◌⊎◌, inl, inr, Bool, true, false, String,
  List, [], ◌∷◌, Option, none, some, insert, Bool-cases,
}
use inference_server.Config.{
  StageConfig, PipelineSourceConfig, PipelineConfig, TaskConfig, find_source, find_pipeline,
}
use inference_server.Graph.{Stage, GraphExecutor}
use inference_server.TaskManager.{
  TaskManager, Entry, Reply, returns, Context, build_entry, build_found, install_built, install,
  build_executor, stopped, running, add_stages, build_runtime, then_build,
}
use inference_server.Graph
use inference_server.Graph.Running.{start-running, build-running, add_stage-running}
use inference_server.TaskManager.Entries.{is_running}

module _ {P : Type 0} where
  -- Everything but the entries.
  pub record IsFrame (m m' : TaskManager P) : Type 0 where
    pub cfg : m'.cfg ≡ m.cfg
    pub runtime_state : m'.runtime_state ≡ m.runtime_state
    pub saves : m'.saves ≡ m.saves

  pub IsFrame-refl : (m : TaskManager P) → IsFrame m m
  IsFrame-refl m = record { cfg = refl; runtime_state = refl; saves = refl }

  pub IsFrame-trans : {a b c : TaskManager P} → IsFrame a b → IsFrame b c → IsFrame a c
  IsFrame-trans f g = record { cfg = cc; runtime_state = cc; saves = cc }
    where
      open f use {cfg as c1, runtime_state as r1, saves as s1}
      open g use {cfg as c2, runtime_state as r2, saves as s2}

  -- The state of the entry is that of its executor.
  abbrev pub Agrees : Entry P → Type 0
  Agrees e = is_running e ≡ e.executor.running

  -- The manager is as it was, or an entry for the task is put in, whose state is its executor's.
  abbrev pub Built : TaskManager P → TaskConfig → Reply × TaskManager P → Type 0
  Built m task r =
      ((r.1 ≡ m) × (r.0 ≢ returns true))
      ⊎ ((e : Entry P) × (r ≡ (returns true, record m { entries = insert m.entries task.id e }))
          × Agrees e)

  module _ (create : StageConfig → Context → Option Stage) (fails : String → String → Bool) where
    install_cases :
        (m : TaskManager P) (task : TaskConfig) (autostart : Bool) (g : GraphExecutor P)
        → g.running ≡ false
        → Built m task (install create fails m task autostart g)
    unfolding install
    install_cases m task false g h = inr (record { executor = g; state = stopped }, refl, sym h)
    install_cases m task true g h = elim (Bool-cases (Graph.start (fails task.id) g).2) [
      | inl e ↦ rw e (inl (refl, λ c. cc))
      | inr e ↦ rw e (
          inr (
            record { executor = (Graph.start (fails task.id) g).0; state = running },
            refl,
            sym (start-running (fails task.id) g),
          ))
    ]

    add_stages-running :
        (g g' : GraphExecutor P) (nodes : List StageConfig) (ctx : Context)
        → add_stages create fails g nodes ctx ≡ some g'
        → g'.running ≡ g.running
    unfolding add_stages
    add_stages-running g g' [] ctx h = cc
    add_stages-running g g' (node ∷ nodes) ctx h = elim (Option-cases (create node ctx)) [
      | inl e ↦ absurd (none-ne-some (rw (e, add_stages) at h))
      | inr (stage, e) ↦
          add_stages-running (Graph.add_stage g stage) g' nodes ctx (rw (e, add_stages) at h)
          ∙ add_stage-running g stage
    ]

    then_build-running :
        (o : Option (GraphExecutor P)) (g : GraphExecutor P)
        → ((h : GraphExecutor P) → o ≡ some h → h.running ≡ false)
        → then_build create fails o ≡ some g
        → g.running ≡ false
    then_build-running none g idle e = absurd (none-ne-some e)
    then_build-running (some h) g idle e = build-running h g e ∙ idle h refl

    build_runtime-running :
        (ctx : Context) (o : Option PipelineConfig) (g : GraphExecutor P)
        → build_runtime create fails ctx o ≡ some g
        → g.running ≡ false
    unfolding Graph.make
    build_runtime-running ctx none g e = absurd (none-ne-some e)
    build_runtime-running ctx (some cfg) g e =
        then_build-running _ g
          (λ h found. add_stages-running (Graph.make cfg) h cfg.nodes ctx found) e

    install_built_cases :
        (m : TaskManager P) (task : TaskConfig) (autostart : Bool) (o : Option (GraphExecutor P))
        → ((g : GraphExecutor P) → o ≡ some g → g.running ≡ false)
        → Built m task (install_built create fails m task autostart o)
    unfolding install_built
    install_built_cases m task autostart none idle = inl (refl, λ c. cc)
    install_built_cases m task autostart (some g) idle =
        install_cases m task autostart g (idle g refl)

    build_found_cases :
        (m : TaskManager P) (task : TaskConfig) (autostart : Bool)
        (source : Option PipelineSourceConfig) (pipeline : Option PipelineConfig)
        → Built m task (build_found create fails m task autostart source pipeline)
    unfolding build_found build_executor
    build_found_cases m task autostart (some source) (some pipeline) =
        install_built_cases m task autostart _ (build_runtime-running _ _)
    build_found_cases m task autostart none pipeline = inl (refl, λ c. cc)
    build_found_cases m task autostart (some source) none = inl (refl, λ c. cc)

    -- BuildEntry changes nothing and does not return true, or it returns true and puts in one
    -- entry, under the task's identifier, which is marked as running exactly if its executor runs.
    pub build_entry_cases :
        (m : TaskManager P) (task : TaskConfig) (autostart : Bool)
        → Built m task (build_entry create fails m task autostart)
    unfolding build_entry
    build_entry_cases m task autostart =
        build_found_cases m task autostart (find_source m.cfg task.source_id)
          (find_pipeline m.cfg task.pipeline_id)
