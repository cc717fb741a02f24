-- ===== src/Config.antt =====
-- include/common/Config.h and include/common/Types.h: the configuration structs, and
-- src/common/Config.cpp: the look-ups of `AppConfig`.
--
-- A `float` that the modelled code only copies is kept as its 32-bit pattern. `std::map` is a list
-- of pairs. `StreamConfig`, `KafkaConfig`, `GrpcConfig`, `RedisConfig` and the settings of
-- `ServerConfig` other than `model_repository` are read by no modelled code and are left out.
pub mod Names
use inference_server.Shared.{ℕ, Bool, String, List, Option, find_id}
use inference_server.Shared.Int.{ℤ}

pub data ModelType : Type 0 where
  detector classifier : ModelType

pub data SamplingMode : Type 0 where
  frame_count time_based : SamplingMode

pub data EdgeDropPolicy : Type 0 where
  block drop_oldest drop_newest : EdgeDropPolicy

pub data DeviceType : Type 0 where
  cpu cuda ascend mps : DeviceType

pub data YoloVersion : Type 0 where
  v5 v8 v11 v26 unknown : YoloVersion

-- The bit pattern of a `float`.
abbrev pub Float32 : Type 0
Float32 = ℕ

pub record InferShape : Type 0 where
  pub batch : ℤ
  pub channels : ℤ
  pub height : ℤ
  pub width : ℤ

pub record CascadeConfig : Type 0 where
  pub model_id : String
  pub trigger_classes : List ℤ
  pub crop_expand : Float32
  pub attribute_key : String

pub record ModelConfig : Type 0 where
  pub id : String
  pub version : YoloVersion
  pub backend : DeviceType
  pub model_type : ModelType
  pub engine_path : String
  pub om_paths : List (ℤ × String)
  pub onnx_path : String
  pub input_shape : InferShape
  pub batch_size : ℤ
  pub conf_thresh : Float32
  pub nms_thresh : Float32
  pub device_id : ℤ
  pub num_classes : ℤ
  pub class_names : List String
  pub buffer_pool_size : ℤ
  pub instance_count : ℤ
  pub device_ids : List ℤ
  pub cascade : List CascadeConfig
  pub preferred_batch_sizes : List ℤ
  pub max_queue_delay_us : ℤ

pub record PipelineSourceConfig : Type 0 where
  pub id : String
  pub url : String
  pub reconnect_delay_ms : ℤ
  pub max_reconnect_delay_ms : ℤ
  pub degraded_threshold : ℤ
  pub max_reconnect_attempts : ℤ
  pub open_timeout_ms : ℤ
  pub read_timeout_ms : ℤ

pub record StageConfig : Type 0 where
  pub id : String
  pub type : String
  pub with_map : List (String × String)

pub record EdgeConfig : Type 0 where
  pub from : String
  pub to : String
  pub capacity : ℤ
  pub drop_policy : EdgeDropPolicy

pub record PipelineConfig : Type 0 where
  pub id : String
  pub nodes : List StageConfig
  pub edges : List EdgeConfig

pub record TaskConfig : Type 0 where
  pub id : String
  pub source_id : String
  pub pipeline_id : String
  pub sample_fps : ℤ
  pub sampling_mode : SamplingMode
  pub use_hwdec : Bool
  pub use_ascend_dvpp : Bool
  pub ascend_device_id : ℤ

pub record AppConfig : Type 0 where
  pub model_repository : String
  pub models : List ModelConfig
  pub sources : List PipelineSourceConfig
  pub pipelines : List PipelineConfig
  pub tasks : List TaskConfig

-- The member `id`, as the key of the look-ups.
abbrev pub model_key : ModelConfig → String
model_key m = m.id

abbrev pub source_key : PipelineSourceConfig → String
source_key s = s.id

abbrev pub pipeline_key : PipelineConfig → String
pipeline_key p = p.id

abbrev pub task_key : TaskConfig → String
task_key t = t.id

abbrev pub find_model : AppConfig → String → Option ModelConfig
find_model cfg = find_id model_key cfg.models

abbrev pub find_source : AppConfig → String → Option PipelineSourceConfig
find_source cfg = find_id source_key cfg.sources

abbrev pub find_pipeline : AppConfig → String → Option PipelineConfig
find_pipeline cfg = find_id pipeline_key cfg.pipelines

abbrev pub find_task : AppConfig → String → Option TaskConfig
find_task cfg = find_id task_key cfg.tasks
