-- ===== src/RuntimeState/Writing.antt =====
-- The functions `toJson` of src/common/RuntimeState.cpp.
use inference_server.Shared.{String, List, [], ◌∷◌, map}
use inference_server.Shared.Int.{ℤ}
use inference_server.Config.{
  PipelineSourceConfig, StageConfig, EdgeConfig, PipelineConfig, TaskConfig, ModelConfig,
  CascadeConfig, ModelType, detector, classifier,
}
use inference_server.Config.Names.{
  device_type_to_str, yolo_version_to_str, sampling_mode_to_str, edge_drop_policy_to_json,
}
use inference_server.Json.{Json}
use inference_server.RuntimeState.{RuntimeState}

abbrev pub model_type_to_str : ModelType → String
model_type_to_str classifier = "classifier"
model_type_to_str detector = "detector"

module _ (J : Json) where
  open J use {Value, text, int, bool, float, array, object}

  abbrev pub source_fields : PipelineSourceConfig → List (String × Value)
  source_fields s =
      ("id", text s.id)
      ∷ ("url", text s.url)
      ∷ ("reconnect_delay_ms", int s.reconnect_delay_ms)
      ∷ ("max_reconnect_delay_ms", int s.max_reconnect_delay_ms)
      ∷ ("degraded_threshold", int s.degraded_threshold)
      ∷ ("max_reconnect_attempts", int s.max_reconnect_attempts)
      ∷ ("open_timeout_ms", int s.open_timeout_ms)
      ∷ ("read_timeout_ms", int s.read_timeout_ms)
      ∷ []

  unfoldable pub source_to_json : PipelineSourceConfig → Value
  source_to_json s = object (source_fields s)

  -- A `std::map` of texts.
  abbrev pub text_members : List (String × String) → List (String × Value)
  text_members [] = []
  text_members ((k, v) ∷ m) = (k, text v) ∷ text_members m

  -- The member is left out where it is empty.
  abbrev pub with_member : List (String × String) → List (String × Value)
  with_member [] = []
  with_member (e ∷ m) = ("with", object (text_members (e ∷ m))) ∷ []

  abbrev pub stage_fields : StageConfig → List (String × Value)
  stage_fields n = ("id", text n.id) ∷ ("type", text n.type) ∷ with_member n.with_map

  unfoldable pub stage_to_json : StageConfig → Value
  stage_to_json n = object (stage_fields n)

  abbrev pub edge_fields : EdgeConfig → List (String × Value)
  edge_fields e =
      ("from", text e.from)
      ∷ ("to", text e.to)
      ∷ ("capacity", int e.capacity)
      ∷ ("drop_policy", text (edge_drop_policy_to_json e.drop_policy))
      ∷ []

  unfoldable pub edge_to_json : EdgeConfig → Value
  edge_to_json e = object (edge_fields e)

  abbrev pub pipeline_fields : PipelineConfig → List (String × Value)
  pipeline_fields p =
      ("id", text p.id)
      ∷ ("nodes", array (map stage_to_json p.nodes))
      ∷ ("edges", array (map edge_to_json p.edges))
      ∷ []

  unfoldable pub pipeline_to_json : PipelineConfig → Value
  pipeline_to_json p = object (pipeline_fields p)

  abbrev pub task_fields : TaskConfig → List (String × Value)
  task_fields t =
      ("id", text t.id)
      ∷ ("source_id", text t.source_id)
      ∷ ("pipeline_id", text t.pipeline_id)
      ∷ ("sample_fps", int t.sample_fps)
      ∷ ("sampling_mode", text (sampling_mode_to_str t.sampling_mode))
      ∷ ("use_hwdec", bool t.use_hwdec)
      ∷ ("use_ascend_dvpp", bool t.use_ascend_dvpp)
      ∷ ("ascend_device_id", int t.ascend_device_id)
      ∷ []

  unfoldable pub task_to_json : TaskConfig → Value
  task_to_json t = object (task_fields t)

  abbrev pub cascade_fields : CascadeConfig → List (String × Value)
  cascade_fields c =
      ("model_id", text c.model_id)
      ∷ ("trigger_classes", array (map int c.trigger_classes))
      ∷ ("crop_expand", float c.crop_expand)
      ∷ ("attribute_key", text c.attribute_key)
      ∷ []

  unfoldable pub cascade_to_json : CascadeConfig → Value
  cascade_to_json c = object (cascade_fields c)

  -- `show` is `std::to_string`.
  module _ (show : ℤ → String) where
    abbrev pub om_members : List (ℤ × String) → List (String × Value)
    om_members [] = []
    om_members ((k, v) ∷ m) = (show k, text v) ∷ om_members m

    abbrev pub shape_fields : ModelConfig → List (String × Value)
    shape_fields m =
        ("c", int m.input_shape.channels)
        ∷ ("h", int m.input_shape.height)
        ∷ ("w", int m.input_shape.width)
        ∷ []

    abbrev pub model_fields : ModelConfig → List (String × Value)
    model_fields m =
        ("id", text m.id)
        ∷ ("version", text (yolo_version_to_str m.version))
        ∷ ("backend", text (device_type_to_str m.backend))
        ∷ ("model_type", text (model_type_to_str m.model_type))
        ∷ ("onnx_path", text m.onnx_path)
        ∷ ("engine_path", text m.engine_path)
        ∷ ("om_paths", object (om_members m.om_paths))
        ∷ ("batch_size", int m.batch_size)
        ∷ ("input_shape", object (shape_fields m))
        ∷ ("conf_thresh", float m.conf_thresh)
        ∷ ("nms_thresh", float m.nms_thresh)
        ∷ ("device_id", int m.device_id)
        ∷ ("num_classes", int m.num_classes)
        ∷ ("class_names", array (map text m.class_names))
        ∷ ("buffer_pool_size", int m.buffer_pool_size)
        ∷ ("instance_count", int m.instance_count)
        ∷ ("device_ids", array (map int m.device_ids))
        ∷ ("cascade", array (map cascade_to_json m.cascade))
        ∷ ("preferred_batch_sizes", array (map int m.preferred_batch_sizes))
        ∷ ("max_queue_delay_us", int m.max_queue_delay_us)
        ∷ []

    unfoldable pub model_to_json : ModelConfig → Value
    model_to_json m = object (model_fields m)

    abbrev pub state_fields : RuntimeState → List (String × Value)
    state_fields s =
        ("added_sources", array (map source_to_json s.added_sources))
        ∷ ("removed_source_ids", array (map text s.removed_source_ids))
        ∷ ("added_pipelines", array (map pipeline_to_json s.added_pipelines))
        ∷ ("removed_pipeline_ids", array (map text s.removed_pipeline_ids))
        ∷ ("added_tasks", array (map task_to_json s.added_tasks))
        ∷ ("removed_task_ids", array (map text s.removed_task_ids))
        ∷ ("added_models", array (map model_to_json s.added_models))
        ∷ ("removed_model_ids", array (map text s.removed_model_ids))
        ∷ []

    -- The value that `saveRuntimeState` dumps.
    unfoldable pub state_to_json : RuntimeState → Value
    state_to_json s = object (state_fields s)
