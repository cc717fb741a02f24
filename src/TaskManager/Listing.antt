-- ===== src/TaskManager/Listing.antt =====
-- The methods of src/pipeline/TaskManager.cpp that list tasks, sources, pipelines and models, with the
-- structs of include/pipeline/ITaskManager.h.
--
-- `show` is `std::to_string`, and `health` is `StreamHealthRegistry::getHealth`.
pub mod Reports
use mathlib.Core.Path.{subst}
use Prim.Native.String.{◌++◌ as concat}
use inference_server.Shared.{
  ◌≡◌, refl, sym, ap, ◌∙◌, ℕ, ◌-◌, ◌^◌, Bool, true, false, ltb, String, List, [], ◌∷◌, Option, none,
  some, map, str_eq, if◌then◌else◌, is_some, lookup, find_id, arith, All, All-mono, Bool-cases,
  Option-cases, inl, inr, eq_iff, some_inj, none-ne-some,
}
use inference_server.Shared.Int.{ℤ, pos, negsuc}
use inference_server.Config.{
  AppConfig, StageConfig, EdgeConfig, PipelineConfig, PipelineSourceConfig, TaskConfig, ModelConfig,
  EdgeDropPolicy, block, drop_oldest, drop_newest, ModelType, detector, classifier, DeviceType, cpu,
  cuda, ascend, mps, YoloVersion, v5, v8, v11, v26, unknown, Float32, SamplingMode, frame_count,
  task_key, find_task, find_model,
}
use inference_server.Config.Names.{device_type_to_str}
use inference_server.Stream.Health.{
  StreamState, StreamHealth, connecting, streaming, reconnecting, degraded, failed, stopped,
}
use inference_server.TaskManager.{TaskManager, Entry, State}
use inference_server.TaskManager.Tasks.{has_entry}
use inference_server.TaskManager.Integrity.{IsClosed, has_task}

pub record TaskRuntimeInfo : Type 0 where
  pub config : TaskConfig
  pub state : State

pub record SourceInfo : Type 0 where
  pub id : String
  pub url : String
  pub state : String
  pub reconnect_count : ℤ

pub record PipelineNodeInfo : Type 0 where
  pub id : String
  pub type : String
  pub with_map : List (String × String)

pub record PipelineEdgeInfo : Type 0 where
  pub from : String
  pub to : String
  pub capacity : ℤ
  pub drop_policy : String

pub record PipelineInfo : Type 0 where
  pub id : String
  pub nodes : List PipelineNodeInfo
  pub edges : List PipelineEdgeInfo

pub record ModelInfo : Type 0 where
  pub id : String
  pub backend : String
  pub version : String
  pub input_shape : String
  pub batch_size : ℤ
  pub instance_count : ℤ
  pub model_type : String
  pub num_classes : ℤ
  pub conf_thresh : Float32
  pub nms_thresh : Float32
  pub device_id : ℤ
  pub preferred_batch_sizes : List ℤ
  pub max_queue_delay_us : ℤ
  pub class_names : List String

pub record RepositoryModelInfo : Type 0 where
  pub id : String
  pub backend : String
  pub version : String
  pub model_type : String
  pub batch_size : ℤ
  pub num_classes : ℤ
  pub conf_thresh : Float32
  pub nms_thresh : Float32
  pub instance_count : ℤ
  pub loaded : Bool

unfoldable pub stream_state_str : StreamState → String
stream_state_str connecting = "CONNECTING"
stream_state_str streaming = "STREAMING"
stream_state_str reconnecting = "RECONNECTING"
stream_state_str degraded = "DEGRADED"
stream_state_str failed = "FAILED"
stream_state_str stopped = "STOPPED"

unfoldable pub yolo_version_str : YoloVersion → String
yolo_version_str v5 = "v5"
yolo_version_str v8 = "v8"
yolo_version_str v11 = "v11"
yolo_version_str v26 = "v26"
yolo_version_str unknown = "unknown"

abbrev pub drop_policy_str : EdgeDropPolicy → String
drop_policy_str drop_oldest = "drop_oldest"
drop_policy_str drop_newest = "drop_newest"
drop_policy_str block = "block"

abbrev pub model_type_str : ModelType → String
model_type_str classifier = "classifier"
model_type_str detector = "detector"

-- `static_cast<int>` of a `uint32_t`
abbrev pub to_int : ℕ → ℤ
to_int n = if ltb n (2 ^ 31) then pos n else negsuc (2 ^ 32 - 1 - n)

-- `TaskConfig{}`
abbrev pub default_task : TaskConfig
default_task = record {
  id = "";
  source_id = "";
  pipeline_id = "";
  sample_fps = pos 5;
  sampling_mode = frame_count;
  use_hwdec = false;
  use_ascend_dvpp = false;
  ascend_device_id = pos 0;
}

abbrev pub or_default : Option TaskConfig → TaskConfig
or_default none = default_task
or_default (some t) = t

abbrev pub source_info :
    {T : Type 0} → (String → StreamHealth T) → PipelineSourceConfig → SourceInfo
source_info health src = record {
  id = src.id;
  url = src.url;
  state = stream_state_str (health src.id).state;
  reconnect_count = to_int (health src.id).reconnect_count;
}

abbrev pub node_info : StageConfig → PipelineNodeInfo
node_info n = record { id = n.id; type = n.type; with_map = n.with_map }

abbrev pub edge_info : EdgeConfig → PipelineEdgeInfo
edge_info e = record {
  from = e.from;
  to = e.to;
  capacity = e.capacity;
  drop_policy = drop_policy_str e.drop_policy;
}

abbrev pub pipeline_info : PipelineConfig → PipelineInfo
pipeline_info p = record { id = p.id; nodes = map node_info p.nodes; edges = map edge_info p.edges }

abbrev pub model_info : (ℤ → String) → ModelConfig → ModelInfo
model_info show x = record {
  id = x.id;
  backend = device_type_to_str x.backend;
  version = yolo_version_str x.version;
  input_shape =
      concat (show x.input_shape.channels)
        (concat "x" (concat (show x.input_shape.height) (concat "x" (show x.input_shape.width))));
  batch_size = x.batch_size;
  instance_count = x.instance_count;
  model_type = model_type_str x.model_type;
  num_classes = x.num_classes;
  conf_thresh = x.conf_thresh;
  nms_thresh = x.nms_thresh;
  device_id = x.device_id;
  preferred_batch_sizes = x.preferred_batch_sizes;
  max_queue_delay_us = x.max_queue_delay_us;
  class_names = x.class_names;
}

abbrev pub repository_info : AppConfig → ModelConfig → RepositoryModelInfo
repository_info cfg x = record {
  id = x.id;
  backend = device_type_to_str x.backend;
  version = yolo_version_str x.version;
  model_type = model_type_str x.model_type;
  batch_size = x.batch_size;
  num_classes = x.num_classes;
  conf_thresh = x.conf_thresh;
  nms_thresh = x.nms_thresh;
  instance_count = x.instance_count;
  loaded = is_some (find_model cfg x.id);
}

module _ {P : Type 0} where
  unfoldable pub list_entries : AppConfig → List (String × Entry P) → List TaskRuntimeInfo
  list_entries cfg [] = []
  list_entries cfg ((id, e) ∷ rest) =
      record { config = or_default (find_task cfg id); state = e.state } ∷ list_entries cfg rest

  unfoldable pub list_tasks : TaskManager P → List TaskRuntimeInfo
  unfolding list_entries
  list_tasks m = list_entries m.cfg m.entries

  unfoldable pub list_sources :
      {T : Type 0} → (String → StreamHealth T) → TaskManager P → List SourceInfo
  list_sources health m = map (source_info health) m.cfg.sources

  unfoldable pub list_pipelines : TaskManager P → List PipelineInfo
  list_pipelines m = map pipeline_info m.cfg.pipelines

  unfoldable pub list_models : (ℤ → String) → TaskManager P → List ModelInfo
  list_models show m = map (model_info show) m.cfg.models

  -- `repo` is `scanModelRepository`, where `none` is an exception.
  unfoldable pub list_repository_models :
      (String → Option (List ModelConfig)) → TaskManager P → List RepositoryModelInfo
  list_repository_models repo m =
      if str_eq m.cfg.model_repository "" then [] else elim (repo m.cfg.model_repository) [
        | none ↦ []
        | some models ↦ map (repository_info m.cfg) models
      ]
