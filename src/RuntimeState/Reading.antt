-- ===== src/RuntimeState/Reading.antt =====
-- The functions `…FromJson` of src/common/RuntimeState.cpp: `none` is an exception.
use inference_server.Shared.{
  false, not, String, List, [], ◌∷◌, Option, none, some, if◌then◌else◌, str_eq, insert,
}
use inference_server.Shared.Options.{◌>>=◌, traverse}
use inference_server.Shared.Int.{ℤ, pos, int_eq}
use inference_server.Config.{
  PipelineSourceConfig, StageConfig, EdgeConfig, PipelineConfig, TaskConfig, ModelType, detector,
  classifier, EdgeDropPolicy, block,
}
use inference_server.Config.Names.{parse_sampling_mode, parse_edge_drop_policy}
use inference_server.Json.{Json}
use inference_server.Json.Readers.{value_text, value_int, value_bool, value_elements}

-- `m[k] = v` on a `std::map<int, …>`.
unfoldable pub insert_int : List (ℤ × String) → ℤ → String → List (ℤ × String)
insert_int [] k v = (k, v) ∷ []
insert_int ((j, w) ∷ m) k v = if int_eq j k then (j, v) ∷ m else (j, w) ∷ insert_int m k v

abbrev pub model_type_of : String → ModelType
model_type_of s = if str_eq s "classifier" then classifier else detector

module _ (J : Json) where
  open J use {Value, find, is_object, is_text, as_text, as_int, items}

  unfoldable pub source_from_json : Value → Option PipelineSourceConfig
  source_from_json j = do
    id ← value_text J j "id" ""
    url ← value_text J j "url" ""
    delay ← value_int J j "reconnect_delay_ms" (pos 3000)
    max_delay ← value_int J j "max_reconnect_delay_ms" (pos 60000)
    threshold ← value_int J j "degraded_threshold" (pos 5)
    attempts ← value_int J j "max_reconnect_attempts" (pos 5)
    open_timeout ← value_int J j "open_timeout_ms" (pos 10000)
    read_timeout ← value_int J j "read_timeout_ms" (pos 5000)
    some (record {
      id = id;
      url = url;
      reconnect_delay_ms = delay;
      max_reconnect_delay_ms = max_delay;
      degraded_threshold = threshold;
      max_reconnect_attempts = attempts;
      open_timeout_ms = open_timeout;
      read_timeout_ms = read_timeout;
    })

  -- The loop over the items of an object of texts.
  unfoldable pub read_with :
      List (String × String) → List (String × Value) → Option (List (String × String))
  read_with m [] = some m
  read_with m ((k, v) ∷ rest) = as_text v >>= λ s. read_with (insert m k s) rest

  -- An object's items; a member that is missing or no object has none.
  abbrev pub object_items : Option Value → List (String × Value)
  object_items none = []
  object_items (some v) = if is_object v then items v else []

  unfoldable pub stage_from_json : Value → Option StageConfig
  stage_from_json j = do
    id ← value_text J j "id" ""
    type ← value_text J j "type" ""
    with_map ← read_with [] (object_items (find j "with"))
    some (record { id = id; type = type; with_map = with_map })

  -- An unknown name is logged.
  abbrev pub policy_or_block : Option EdgeDropPolicy → EdgeDropPolicy
  policy_or_block none = block
  policy_or_block (some p) = p

  abbrev pub policy_of_text : String → EdgeDropPolicy
  policy_of_text s = if not (str_eq s "") then policy_or_block (parse_edge_drop_policy s) else block

  abbrev pub read_policy : Option Value → Option EdgeDropPolicy
  read_policy none = some block
  read_policy (some v) =
      if is_text v then (as_text v >>= λ s. some (policy_of_text s)) else some block

  unfoldable pub edge_from_json : Value → Option EdgeConfig
  edge_from_json j = do
    from ← value_text J j "from" ""
    to ← value_text J j "to" ""
    capacity ← value_int J j "capacity" (pos 256)
    policy ← read_policy (find j "drop_policy")
    some (record { from = from; to = to; capacity = capacity; drop_policy = policy })

  unfoldable pub pipeline_from_json : Value → Option PipelineConfig
  pipeline_from_json j = do
    id ← value_text J j "id" ""
    ns ← value_elements J j "nodes"
    nodes ← traverse stage_from_json ns
    es ← value_elements J j "edges"
    edges ← traverse edge_from_json es
    some (record { id = id; nodes = nodes; edges = edges })

  unfoldable pub task_from_json : Value → Option TaskConfig
  task_from_json j = do
    id ← value_text J j "id" ""
    source_id ← value_text J j "source_id" ""
    pipeline_id ← value_text J j "pipeline_id" ""
    sample_fps ← value_int J j "sample_fps" (pos 5)
    name ← value_text J j "sampling_mode" "frame_count"
    mode ← parse_sampling_mode name
    use_hwdec ← value_bool J j "use_hwdec" false
    use_ascend_dvpp ← value_bool J j "use_ascend_dvpp" false
    device ← value_int J j "ascend_device_id" (pos 0)
    some (record {
      id = id;
      source_id = source_id;
      pipeline_id = pipeline_id;
      sample_fps = sample_fps;
      sampling_mode = mode;
      use_hwdec = use_hwdec;
      use_ascend_dvpp = use_ascend_dvpp;
      ascend_device_id = device;
    })
