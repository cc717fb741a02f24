-- ===== src/Server/Listings.antt =====
-- The commands of `UnixSocketServer::dispatch` in src/server/UnixSocketServer.cpp that read the manager.
use inference_server.Shared.{String, List, [], ◌∷◌, Option, map}
use inference_server.Shared.Int.{ℤ}
use inference_server.Config.{ModelConfig}
use inference_server.Config.Names.{sampling_mode_to_str}
use inference_server.Json.{Json}
use inference_server.RuntimeState.Writing.{text_members}
use inference_server.Stream.Health.{StreamHealth}
use inference_server.TaskManager.{TaskManager, State, stopped, running}
use inference_server.TaskManager.Listing.{
  TaskRuntimeInfo, SourceInfo, PipelineNodeInfo, PipelineEdgeInfo, PipelineInfo, ModelInfo,
  RepositoryModelInfo, list_tasks, list_sources, list_pipelines, list_models,
  list_repository_models,
}
use inference_server.Server.{Response, sends, ok_data}

abbrev pub state_text : State → String
state_text running = "running"
state_text stopped = "stopped"

module _ (J : Json) where
  open J use {Value, text, int, bool, float, array, object}

  abbrev pub task_json : TaskRuntimeInfo → Value
  unfolding sampling_mode_to_str
  task_json info = object (
      ("id", text info.config.id)
      ∷ ("state", text (state_text info.state))
      ∷ ("source_id", text info.config.source_id)
      ∷ ("pipeline_id", text info.config.pipeline_id)
      ∷ ("sample_fps", int info.config.sample_fps)
      ∷ ("sampling_mode", text (sampling_mode_to_str info.config.sampling_mode))
      ∷ ("use_hwdec", bool info.config.use_hwdec)
      ∷ ("use_ascend_dvpp", bool info.config.use_ascend_dvpp)
      ∷ ("ascend_device_id", int info.config.ascend_device_id)
      ∷ [])

  abbrev pub source_json : SourceInfo → Value
  source_json s = object (
      ("id", text s.id)
      ∷ ("url", text s.url)
      ∷ ("state", text s.state)
      ∷ ("reconnect_count", int s.reconnect_count)
      ∷ [])

  abbrev pub node_json : PipelineNodeInfo → Value
  node_json n = object (
      ("id", text n.id) ∷ ("type", text n.type) ∷ ("with", object (text_members J n.with_map)) ∷ [])

  abbrev pub edge_json : PipelineEdgeInfo → Value
  edge_json e = object (
      ("from", text e.from)
      ∷ ("to", text e.to)
      ∷ ("capacity", int e.capacity)
      ∷ ("drop_policy", text e.drop_policy)
      ∷ [])

  abbrev pub pipeline_json : PipelineInfo → Value
  pipeline_json p = object (
      ("id", text p.id)
      ∷ ("nodes", array (map node_json p.nodes))
      ∷ ("edges", array (map edge_json p.edges))
      ∷ [])

  abbrev pub model_json : ModelInfo → Value
  model_json m = object (
      ("id", text m.id)
      ∷ ("backend", text m.backend)
      ∷ ("version", text m.version)
      ∷ ("input_shape", text m.input_shape)
      ∷ ("batch_size", int m.batch_size)
      ∷ ("instance_count", int m.instance_count)
      ∷ ("model_type", text m.model_type)
      ∷ ("num_classes", int m.num_classes)
      ∷ ("conf_thresh", float m.conf_thresh)
      ∷ ("nms_thresh", float m.nms_thresh)
      ∷ ("device_id", int m.device_id)
      ∷ ("preferred_batch_sizes", array (map int m.preferred_batch_sizes))
      ∷ ("max_queue_delay_us", int m.max_queue_delay_us)
      ∷ ("class_names", array (map text m.class_names))
      ∷ [])

  abbrev pub repository_json : RepositoryModelInfo → Value
  repository_json m = object (
      ("id", text m.id)
      ∷ ("backend", text m.backend)
      ∷ ("version", text m.version)
      ∷ ("model_type", text m.model_type)
      ∷ ("batch_size", int m.batch_size)
      ∷ ("num_classes", int m.num_classes)
      ∷ ("conf_thresh", float m.conf_thresh)
      ∷ ("nms_thresh", float m.nms_thresh)
      ∷ ("instance_count", int m.instance_count)
      ∷ ("loaded", bool m.loaded)
      ∷ [])

  module _ {P : Type 0} where
    -- Each listing is sent under `data`, and leaves the manager as it is.
    abbrev send_list {ℓ} :
        {A : Type ℓ} → (A → Value) → List A → TaskManager P → Response Value × TaskManager P
    send_list write xs m = (sends (ok_data J (array (map write xs))), m)

    unfoldable pub tasks_command : TaskManager P → Response Value × TaskManager P
    tasks_command m = send_list task_json (list_tasks m) m

    unfoldable pub sources_command :
        {T : Type 0} → (String → StreamHealth T) → TaskManager P → Response Value × TaskManager P
    sources_command health m = send_list source_json (list_sources health m) m

    unfoldable pub pipelines_command : TaskManager P → Response Value × TaskManager P
    pipelines_command m = send_list pipeline_json (list_pipelines m) m

    unfoldable pub models_command : (ℤ → String) → TaskManager P → Response Value × TaskManager P
    models_command show m = send_list model_json (list_models show m) m

    unfoldable pub repository_command :
        (String → Option (List ModelConfig)) → TaskManager P → Response Value × TaskManager P
    repository_command repo m = send_list repository_json (list_repository_models repo m) m
