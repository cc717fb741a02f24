-- ===== src/TaskManager.antt =====
-- src/pipeline/TaskManager.cpp and include/pipeline/TaskManager.h: the control plane, which owns
-- the configuration, one executor for each task, and the record of the changes made at run time.
--
-- Every method that changes state returns how it ends and the manager that it leaves, also where an
-- exception leaves the method. A parameter stands for `StageFactory::create`, and one tells which
-- stages fail to start. `saves` are the states that `persist` gave to
-- `saveRuntimeState`, the latest first; `write_saves` tells what they make of the files.
pub mod Url
pub mod Template
pub mod Entries
pub mod Mutations
pub mod Tasks
pub mod Frame
pub mod Touched
pub mod Integrity
pub mod Upkeep
pub mod Rebuild
pub mod Requests
pub mod Agreement
pub mod Race
pub mod Listing
pub mod Restart
pub mod Effects
mod Samples
use inference_server.Shared.{
  ℕ, Bool, true, false, String, List, [], ◌∷◌, ◌++◌, Option, none, some, str_eq, if◌then◌else◌,
  ◌==◌, lookup, insert, erase, find_id, length,
}
use inference_server.Shared.Int.{ℤ, pos}
use inference_server.Config.{
  AppConfig, StageConfig, PipelineSourceConfig, PipelineConfig, TaskConfig, ModelConfig,
  SamplingMode, DeviceType, ascend, find_source, find_pipeline, find_model,
}
use inference_server.Json.{Json}
use inference_server.RuntimeState.{RuntimeState, apply_runtime_state}
use inference_server.RuntimeState.Loading.{
  Disk, load_runtime_state, save_runtime_state, runtime_state_path,
}
use inference_server.Graph.{GraphExecutor, Stage}
use inference_server.Graph
use Url.{interpolate_pipeline_for_task}

pub data State : Type 0 where
  stopped running : State

pub record Entry (P : Type 0) : Type 0 where
  pub executor : GraphExecutor P
  pub state : State

pub record TaskManager (P : Type 0) : Type 0 where
  pub cfg : AppConfig
  pub runtime_state : RuntimeState
  pub saves : List RuntimeState
  pub entries : List (String × Entry P)

-- `StageFactory::Context`, less the publishers and the archiver, which never change.
pub record Context : Type 0 where
  pub app_config : AppConfig
  pub source : PipelineSourceConfig
  pub sample_fps : ℤ
  pub sampling_mode : SamplingMode
  pub use_hwdec : Bool
  pub use_ascend_dvpp : Bool
  pub ascend_device_id : ℤ
  pub vpc_out_width : ℤ
  pub vpc_out_height : ℤ

-- How a method ends.
pub data Reply : Type 0 where
  returns : Bool → Reply
  throws : Reply

-- `findInferModelId`: the empty text if no node has a model.
unfoldable pub find_infer_model_id : List StageConfig → String
find_infer_model_id [] = ""
find_infer_model_id (node ∷ nodes) =
    let rest = find_infer_model_id nodes in
    if str_eq node.type "infer.engine"
    then elim (lookup node.with_map "model_id") [ none ↦ rest | some id ↦ id ]
    else rest

-- The part of `buildEntry` that settles the Ascend decoder: whether it is used, and the size.
abbrev ascend_ingest : Option ModelConfig → Bool × ℤ × ℤ
ascend_ingest none = (false, pos 0, pos 0)
ascend_ingest (some m) = elim m.backend [
  | ascend ↦ (true, m.input_shape.width, m.input_shape.height)
  | _ ↦ (false, pos 0, pos 0)
]

abbrev model_of : AppConfig → String → Option ModelConfig
model_of cfg id = if str_eq id "" then none else find_model cfg id

abbrev ingest : AppConfig → TaskConfig → PipelineConfig → Bool × ℤ × ℤ
ingest cfg task pipeline =
    if task.use_ascend_dvpp
    then ascend_ingest (model_of cfg (find_infer_model_id pipeline.nodes))
    else (false, pos 0, pos 0)

pub context : AppConfig → TaskConfig → PipelineSourceConfig → PipelineConfig → Context
context cfg task source pipeline =
    let (dvpp, w, h) = ingest cfg task pipeline in
    record {
      app_config = cfg;
      source = source;
      sample_fps = task.sample_fps;
      sampling_mode = task.sampling_mode;
      use_hwdec = task.use_hwdec;
      use_ascend_dvpp = dvpp;
      ascend_device_id = task.ascend_device_id;
      vpc_out_width = w;
      vpc_out_height = h;
    }

-- What the calls of `saveRuntimeState` make of the files; `disk n` is what the file system does during the
-- call after `n` others.
unfoldable pub write_saves :
    Json
    → (ℤ → String)
    → (ℕ → Disk)
    → String
    → List RuntimeState
    → List (String × String)
    → List (String × String)
write_saves J show disk config_path [] files = files
write_saves J show disk config_path (s ∷ ss) files =
    save_runtime_state J show (disk (length ss)) s (runtime_state_path config_path)
      (write_saves J show disk config_path ss files)

module _ {P : Type 0} where
  abbrev pub made : AppConfig → Option RuntimeState → Option (TaskManager P)
  made cfg none = none
  made cfg (some loaded) = some (record {
    cfg = apply_runtime_state cfg loaded;
    runtime_state = loaded;
    saves = [];
    entries = [];
  })

  -- The constructor: the changes that the file beside the configuration file holds are applied to the
  -- configuration that was read. `none` is an exception of `loadRuntimeState`.
  unfoldable pub make :
      Json
      → (String → Option ℤ)
      → List (String × String)
      → String
      → AppConfig
      → Option (TaskManager P)
  make J stoi files config_path cfg =
      made cfg (load_runtime_state J stoi files (runtime_state_path config_path))

  -- The call of `saveRuntimeState`, which reports nothing back.
  abbrev pub persist : TaskManager P → TaskManager P
  persist m = record m { saves = m.runtime_state ∷ m.saves }

  -- `create` is `StageFactory::create`, where `none` is an exception; `fails task stage` tells
  -- whether the stage throws when it is started.
  module _ (create : StageConfig → Context → Option Stage) (fails : String → String → Bool) where
    -- `executor->addStage(StageFactory::create(node, ctx))` for each node.
    unfoldable pub add_stages :
        GraphExecutor P → List StageConfig → Context → Option (GraphExecutor P)
    add_stages g [] ctx = some g
    add_stages g (node ∷ nodes) ctx = elim (create node ctx) [
      | none ↦ none
      | some stage ↦ add_stages (Graph.add_stage g stage) nodes ctx
    ]

    abbrev then_build : Option (GraphExecutor P) → Option (GraphExecutor P)
    then_build none = none
    then_build (some g) = Graph.build g

    abbrev build_runtime : Context → Option PipelineConfig → Option (GraphExecutor P)
    build_runtime ctx none = none
    build_runtime ctx (some cfg) = then_build (add_stages (Graph.make cfg) cfg.nodes ctx)

    -- The executor of a task, built and not started; `none` is an exception.
    unfoldable pub build_executor :
        AppConfig → TaskConfig → PipelineSourceConfig → PipelineConfig → Option (GraphExecutor P)
    build_executor cfg task source pipeline =
        build_runtime (context cfg task source pipeline)
          (interpolate_pipeline_for_task (record pipeline { id = task.id }) task)

    abbrev put_entry : TaskManager P → String → Entry P → TaskManager P
    put_entry m id e = record m { entries = insert m.entries id e }

    -- The end of `buildEntry`. Where the start throws, the executor is dropped with its entry unset.
    unfoldable pub install :
        TaskManager P → TaskConfig → Bool → GraphExecutor P → Reply × TaskManager P
    install m task false g =
        (returns true, put_entry m task.id (record { executor = g; state = stopped }))
    install m task true g =
        let (g', calls, threw) = Graph.start (fails task.id) g in
        if threw
        then (throws, m)
        else (returns true, put_entry m task.id (record { executor = g'; state = running }))

    unfoldable pub install_built :
        TaskManager P → TaskConfig → Bool → Option (GraphExecutor P) → Reply × TaskManager P
    unfolding install
    install_built m task autostart none = (throws, m)
    install_built m task autostart (some g) = install m task autostart g

    unfoldable pub build_found :
        TaskManager P
        → TaskConfig
        → Bool
        → Option PipelineSourceConfig
        → Option PipelineConfig
        → Reply × TaskManager P
    unfolding install_built
    build_found m task autostart (some source) (some pipeline) =
        install_built m task autostart (build_executor m.cfg task source pipeline)
    build_found m task autostart _ _ = (returns false, m)

    unfoldable pub build_entry : TaskManager P → TaskConfig → Bool → Reply × TaskManager P
    unfolding build_found
    build_entry m task autostart =
        build_found m task autostart (find_source m.cfg task.source_id)
          (find_pipeline m.cfg task.pipeline_id)
