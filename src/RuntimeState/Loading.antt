-- ===== src/RuntimeState/Loading.antt =====
-- src/common/RuntimeState.cpp: `modelFromJson`, `loadRuntimeState` and `saveRuntimeState`. `none` is an
-- exception.
use Prim.Native.String.{◌++◌ as concat}
use inference_server.Shared.{
  Bool, String, List, [], ◌∷◌, Option, none, some, if◌then◌else◌, lookup, insert, erase,
}
use inference_server.Shared.Options.{◌>>=◌, traverse}
use inference_server.Shared.Int.{ℤ, pos}
use inference_server.Config.{ModelConfig, CascadeConfig, InferShape, Float32}
use inference_server.Config.Names.{parse_device_type, parse_yolo_version}
use inference_server.Json.{Json}
use inference_server.Json.Readers.{value_text, value_int, value_float, value_elements}
use inference_server.RuntimeState.{RuntimeState}
use inference_server.RuntimeState.Reading.{
  insert_int, model_type_of, object_items, source_from_json, pipeline_from_json, task_from_json,
}
use inference_server.RuntimeState.Writing.{state_to_json}

-- The bit patterns of 0.0f, 0.4f and 0.45f.
abbrev default_crop_expand : Float32
default_crop_expand = 0

abbrev pub default_conf_thresh : Float32
default_conf_thresh = 1053609165

abbrev pub default_nms_thresh : Float32
default_nms_thresh = 1055286886

abbrev pub default_shape : InferShape
default_shape = record { batch = pos 1; channels = pos 3; height = pos 640; width = pos 640 }

abbrev pub empty_state : RuntimeState
empty_state = record {
  added_sources = [];
  removed_source_ids = [];
  added_pipelines = [];
  removed_pipeline_ids = [];
  added_tasks = [];
  removed_task_ids = [];
  added_models = [];
  removed_model_ids = [];
}

module _ (J : Json) where
  open J use {Value, find, is_object, as_text, as_int, parse, dump}

  unfoldable pub cascade_from_json : Value → Option CascadeConfig
  cascade_from_json j = do
    model_id ← value_text J j "model_id" ""
    crop_expand ← value_float J j "crop_expand" default_crop_expand
    attribute_key ← value_text J j "attribute_key" ""
    cs ← value_elements J j "trigger_classes"
    classes ← traverse as_int cs
    some (record {
      model_id = model_id;
      trigger_classes = classes;
      crop_expand = crop_expand;
      attribute_key = attribute_key;
    })

  abbrev pub read_dimensions : Value → Option InferShape
  read_dimensions v = do
    c ← value_int J v "c" (pos 3)
    h ← value_int J v "h" (pos 640)
    w ← value_int J v "w" (pos 640)
    some (record { batch = pos 1; channels = c; height = h; width = w })

  abbrev pub read_shape : Option Value → Option InferShape
  read_shape none = some default_shape
  read_shape (some v) = if is_object v then read_dimensions v else some default_shape

  -- `stoi` is `std::stoi`, which may throw.
  module _ (stoi : String → Option ℤ) where
    unfoldable pub read_om_paths :
        List (ℤ × String) → List (String × Value) → Option (List (ℤ × String))
    read_om_paths m [] = some m
    read_om_paths m ((k, v) ∷ rest) =
        stoi k >>= λ n. as_text v >>= λ s. read_om_paths (insert_int m n s) rest

    unfoldable pub model_from_json : Value → Option ModelConfig
    model_from_json j = do
      id ← value_text J j "id" ""
      version_name ← value_text J j "version" "yolov8"
      version ← parse_yolo_version version_name
      backend_name ← value_text J j "backend" "cpu"
      backend ← parse_device_type backend_name
      type_name ← value_text J j "model_type" "detector"
      onnx_path ← value_text J j "onnx_path" ""
      engine_path ← value_text J j "engine_path" ""
      batch_size ← value_int J j "batch_size" (pos 16)
      conf_thresh ← value_float J j "conf_thresh" default_conf_thresh
      nms_thresh ← value_float J j "nms_thresh" default_nms_thresh
      device_id ← value_int J j "device_id" (pos 0)
      num_classes ← value_int J j "num_classes" (pos 80)
      buffer_pool_size ← value_int J j "buffer_pool_size" (pos 4)
      instance_count ← value_int J j "instance_count" (pos 1)
      delay ← value_int J j "max_queue_delay_us" (pos 10000)
      shape ← read_shape (find j "input_shape")
      om_paths ← read_om_paths [] (object_items J (find j "om_paths"))
      cn ← value_elements J j "class_names"
      class_names ← traverse as_text cn
      di ← value_elements J j "device_ids"
      device_ids ← traverse as_int di
      bs ← value_elements J j "preferred_batch_sizes"
      preferred ← traverse as_int bs
      cs ← value_elements J j "cascade"
      cascade ← traverse cascade_from_json cs
      some (record {
        id = id;
        version = version;
        backend = backend;
        model_type = model_type_of type_name;
        engine_path = engine_path;
        om_paths = om_paths;
        onnx_path = onnx_path;
        input_shape = shape;
        batch_size = batch_size;
        conf_thresh = conf_thresh;
        nms_thresh = nms_thresh;
        device_id = device_id;
        num_classes = num_classes;
        class_names = class_names;
        buffer_pool_size = buffer_pool_size;
        instance_count = instance_count;
        device_ids = device_ids;
        cascade = cascade;
        preferred_batch_sizes = preferred;
        max_queue_delay_us = delay;
      })

    abbrev pub read_all {ℓ} : {A : Type ℓ} → (Value → Option A) → Value → String → Option (List A)
    read_all read j k = value_elements J j k >>= traverse read

    -- The loops of `loadRuntimeState`.
    unfoldable pub state_from_json : Value → Option RuntimeState
    state_from_json j = do
      added_sources ← read_all (source_from_json J) j "added_sources"
      removed_source_ids ← read_all as_text j "removed_source_ids"
      added_pipelines ← read_all (pipeline_from_json J) j "added_pipelines"
      removed_pipeline_ids ← read_all as_text j "removed_pipeline_ids"
      added_tasks ← read_all (task_from_json J) j "added_tasks"
      removed_task_ids ← read_all as_text j "removed_task_ids"
      added_models ← read_all model_from_json j "added_models"
      removed_model_ids ← read_all as_text j "removed_model_ids"
      some (record {
        added_sources = added_sources;
        removed_source_ids = removed_source_ids;
        added_pipelines = added_pipelines;
        removed_pipeline_ids = removed_pipeline_ids;
        added_tasks = added_tasks;
        removed_task_ids = removed_task_ids;
        added_models = added_models;
        removed_model_ids = removed_model_ids;
      })

    -- A text that is no JSON is logged.
    abbrev pub parse_state : Option Value → Option RuntimeState
    parse_state none = some empty_state
    parse_state (some j) = state_from_json j

    abbrev pub read_state : Option String → Option RuntimeState
    read_state none = some empty_state
    read_state (some content) = parse_state (parse content)

    -- `files` are the files that can be opened.
    unfoldable pub load_runtime_state : List (String × String) → String → Option RuntimeState
    load_runtime_state files path = read_state (lookup files path)

-- What the file system does during a call: whether the temporary file opens, what its stream leaves
-- of the text, and whether `std::rename` succeeds.
pub record Disk : Type 0 where
  pub opens : Bool
  pub written : String → String
  pub renames : Bool

-- `runtimeStatePath`
abbrev pub runtime_state_path : String → String
runtime_state_path config_path = concat config_path ".runtime.json"

abbrev pub tmp_path : String → String
tmp_path path = concat path ".tmp"

-- `std::rename` of a file that is there.
abbrev pub rename : List (String × String) → String → String → String → List (String × String)
rename files from to content = erase (insert files to content) from

unfoldable pub save_runtime_state :
    (J : Json)
    → (ℤ → String)
    → Disk
    → RuntimeState
    → String
    → List (String × String)
    → List (String × String)
save_runtime_state J show disk state path files =
    let content = disk.written (J.dump (state_to_json J show state)) in
    if disk.opens
    then if disk.renames
      then rename files (tmp_path path) path content
      else insert files (tmp_path path) content
    else files
