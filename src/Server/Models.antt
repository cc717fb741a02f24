-- ===== src/Server/Models.antt =====
-- The commands of `UnixSocketServer::dispatch` in src/server/UnixSocketServer.cpp on models.
use Prim.Native.String.{◌++◌ as concat}
use inference_server.Shared.{String, List, [], ◌∷◌, Option, some, if◌then◌else◌, str_eq, any, not}
use inference_server.Shared.Options.{◌>>=◌}
use inference_server.Shared.Int.{ℤ, pos}
use inference_server.Config.{ModelConfig}
use inference_server.Config.Names.{parse_device_type, parse_yolo_version}
use inference_server.Json.{Json}
use inference_server.Json.Readers.{value_text, value_int, value_float}
use inference_server.RuntimeState.Reading.{insert_int, model_type_of, object_items}
use inference_server.RuntimeState.Loading.{default_conf_thresh, default_nms_thresh, read_shape}
use inference_server.TaskManager.{TaskManager}
use inference_server.TaskManager.Mutations.{load_model, unload_model, load_from_repository}
use inference_server.TaskManager.Listing.{list_models}
use inference_server.Server.{Response, sends, ok_id, error_message, error_code, with_read, answer}
use inference_server.Server.Edits.{with_id}

module _ (J : Json) (stoi : String → Option ℤ) where
  open J use {Value, find, as_text}

  -- A path that is no text, or whose key is no number, is left out.
  abbrev pub keep_path : List (ℤ × String) → Option ℤ → Option String → List (ℤ × String)
  keep_path m (some n) (some s) = insert_int m n s
  keep_path m _ _ = m

  unfoldable pub keep_om_paths : List (ℤ × String) → List (String × Value) → List (ℤ × String)
  keep_om_paths m [] = m
  keep_om_paths m ((k, v) ∷ rest) = keep_om_paths (keep_path m (stoi k) (as_text v)) rest

  unfoldable pub read_model : Value → String → Option ModelConfig
  read_model req id = do
    backend_name ← value_text J req "backend" "cpu"
    backend ← parse_device_type backend_name
    version_name ← value_text J req "version" "yolov8"
    version ← parse_yolo_version version_name
    type_name ← value_text J req "model_type" "detector"
    onnx_path ← value_text J req "onnx_path" ""
    engine_path ← value_text J req "engine_path" ""
    batch_size ← value_int J req "batch_size" (pos 16)
    conf_thresh ← value_float J req "conf_thresh" default_conf_thresh
    nms_thresh ← value_float J req "nms_thresh" default_nms_thresh
    num_classes ← value_int J req "num_classes" (pos 80)
    instance_count ← value_int J req "instance_count" (pos 1)
    shape ← read_shape J (find req "input_shape")
    some (record {
      id = id;
      version = version;
      backend = backend;
      model_type = model_type_of type_name;
      engine_path = engine_path;
      om_paths = keep_om_paths [] (object_items J (find req "om_paths"));
      onnx_path = onnx_path;
      input_shape = shape;
      batch_size = batch_size;
      conf_thresh = conf_thresh;
      nms_thresh = nms_thresh;
      device_id = pos 0;
      num_classes = num_classes;
      class_names = [];
      buffer_pool_size = pos 4;
      instance_count = instance_count;
      device_ids = [];
      cascade = [];
      preferred_batch_sizes = [];
      max_queue_delay_us = pos 10000;
    })

  module _ {P : Type 0} where
    unfoldable pub load_command :
        (String → Option (List ModelConfig))
        → TaskManager P
        → Value
        → Response Value × TaskManager P
    load_command repo m req = with_id J m req (λ id.
        answer (ok_id J id) (error_message J (concat "not found or already loaded: " id))
          (load_from_repository repo m id))

    unfoldable pub load_model_command : TaskManager P → Value → Response Value × TaskManager P
    load_model_command m req = with_id J m req (λ id. with_read m (read_model req id) (λ model.
        answer (ok_id J id) (error_message J (concat "already exists: " id)) (load_model m model)))

    unfoldable pub unload_model_command :
        (ℤ → String) → TaskManager P → Value → Response Value × TaskManager P
    unload_model_command show m req = with_read m (value_text J req "id" "") (λ id.
        if not (any (λ x. str_eq x.id id) (list_models show m))
        then (sends (error_code J "not_found" (concat "not found: " id)), m)
        else answer (ok_id J id)
            (error_code J "in_use" (concat "model in use by a running task: " id))
            (unload_model m id))
