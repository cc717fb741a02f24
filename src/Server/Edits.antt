-- ===== src/Server/Edits.antt =====
-- The commands of `UnixSocketServer::dispatch` in src/server/UnixSocketServer.cpp on sources, pipelines and
-- tasks.
use Prim.Native.String.{◌++◌ as concat}
use inference_server.Shared.{
  Bool, true, false, ◌&&◌, ◌||◌, String, Option, some, if◌then◌else◌, str_eq, any, not,
}
use inference_server.Shared.Options.{◌>>=◌, traverse}
use inference_server.Shared.Int.{pos}
use inference_server.Config.{
  PipelineSourceConfig, StageConfig, EdgeConfig, PipelineConfig, TaskConfig, frame_count,
}
use inference_server.Config.Names.{parse_edge_drop_policy}
use inference_server.Graph.{Stage}
use inference_server.Json.{Json}
use inference_server.Json.Readers.{value_text, value_int, value_bool, value_elements}
use inference_server.RuntimeState.Reading.{stage_from_json}
use inference_server.Stream.Health.{StreamHealth}
use inference_server.TaskManager.{TaskManager, State, running, stopped, Context}
use inference_server.TaskManager.Entries.{start, stop}
use inference_server.TaskManager.Mutations.{
  add_source, remove_source, add_pipeline, remove_pipeline,
}
use inference_server.TaskManager.Tasks.{add_task, update_task, remove_task, update_pipeline}
use inference_server.TaskManager.Listing.{TaskRuntimeInfo, list_tasks, list_sources, list_pipelines}
use inference_server.Server.{
  Response, sends, ok_id, error_message, error_code, missing_id, with_read, answer,
}

abbrev pub runs : State → Bool
runs running = true
runs stopped = false

module _ (J : Json) where
  open J use {Value}

  -- The members of a source after its identifier; the times to open and to read keep their defaults.
  unfoldable pub read_source : Value → String → Option PipelineSourceConfig
  read_source req id = do
    url ← value_text J req "url" ""
    delay ← value_int J req "reconnect_delay_ms" (pos 3000)
    max_delay ← value_int J req "max_reconnect_delay_ms" (pos 60000)
    threshold ← value_int J req "degraded_threshold" (pos 5)
    attempts ← value_int J req "max_reconnect_attempts" (pos 5)
    some (record {
      id = id;
      url = url;
      reconnect_delay_ms = delay;
      max_reconnect_delay_ms = max_delay;
      degraded_threshold = threshold;
      max_reconnect_attempts = attempts;
      open_timeout_ms = pos 10000;
      read_timeout_ms = pos 5000;
    })

  unfoldable pub read_edge : Value → Option EdgeConfig
  read_edge e = do
    from ← value_text J e "from" ""
    to ← value_text J e "to" ""
    capacity ← value_int J e "capacity" (pos 256)
    name ← value_text J e "drop_policy" "block"
    policy ← parse_edge_drop_policy name
    some (record { from = from; to = to; capacity = capacity; drop_policy = policy })

  unfoldable pub read_pipeline : Value → String → Option PipelineConfig
  read_pipeline req id = do
    ns ← value_elements J req "nodes"
    nodes ← traverse (stage_from_json J) ns
    es ← value_elements J req "edges"
    edges ← traverse read_edge es
    some (record { id = id; nodes = nodes; edges = edges })

  abbrev pub read_names : Value → Option (String × String × String)
  read_names req = do
    id ← value_text J req "id" ""
    source_id ← value_text J req "source_id" ""
    pipeline_id ← value_text J req "pipeline_id" ""
    some (id, source_id, pipeline_id)

  abbrev pub lacks_name : String × String × String → Bool
  lacks_name (id, source_id, pipeline_id) =
      str_eq id "" || (str_eq source_id "" || str_eq pipeline_id "")

  unfoldable pub read_new_task : Value → String × String × String → Option (TaskConfig × Bool)
  read_new_task req (id, source_id, pipeline_id) = do
    sample_fps ← value_int J req "sample_fps" (pos 5)
    autostart ← value_bool J req "autostart" true
    some (
      record {
        id = id;
        source_id = source_id;
        pipeline_id = pipeline_id;
        sample_fps = sample_fps;
        sampling_mode = frame_count;
        use_hwdec = false;
        use_ascend_dvpp = false;
        ascend_device_id = pos 0;
      },
      autostart,
    )

  unfoldable pub read_task : Value → String × String × String → Option TaskConfig
  read_task req (id, source_id, pipeline_id) = do
    sample_fps ← value_int J req "sample_fps" (pos 5)
    use_hwdec ← value_bool J req "use_hwdec" false
    use_ascend_dvpp ← value_bool J req "use_ascend_dvpp" false
    device ← value_int J req "ascend_device_id" (pos 0)
    some (record {
      id = id;
      source_id = source_id;
      pipeline_id = pipeline_id;
      sample_fps = sample_fps;
      sampling_mode = frame_count;
      use_hwdec = use_hwdec;
      use_ascend_dvpp = use_ascend_dvpp;
      ascend_device_id = device;
    })

  abbrev not_found : String → Value
  not_found id = error_code J "not_found" (concat "not found: " id)

  abbrev missing_names : Value
  missing_names = error_message J "missing required fields: id, source_id, pipeline_id"

  -- A task of the listing runs the pipeline.
  abbrev pub runs_it : String → TaskRuntimeInfo → Bool
  runs_it id info = str_eq info.config.pipeline_id id && runs info.state

  module _ {P : Type 0} where
    -- The identifier, and the answer without one.
    abbrev pub with_id :
        TaskManager P
        → Value
        → (String → Response Value × TaskManager P)
        → Response Value × TaskManager P
    with_id m req f =
        with_read m (value_text J req "id" "")
          (λ id. if str_eq id "" then (sends (missing_id J), m) else f id)

    unfoldable pub stop_command : TaskManager P → Value → Response Value × TaskManager P
    stop_command m req =
        with_read m (value_text J req "id" "")
          (λ id. answer (ok_id J id) (error_message J (concat "task not found: " id)) (stop m id))

    unfoldable pub add_source_command : TaskManager P → Value → Response Value × TaskManager P
    add_source_command m req = with_id m req (λ id. with_read m (read_source req id) (λ src.
        answer (ok_id J id) (error_message J (concat "already exists: " id)) (add_source m src)))

    unfoldable pub remove_source_command :
        {T : Type 0}
        → (String → StreamHealth T)
        → TaskManager P
        → Value
        → Response Value × TaskManager P
    remove_source_command health m req = with_read m (value_text J req "id" "") (λ id.
        if not (any (λ s. str_eq s.id id) (list_sources health m))
        then (sends (not_found id), m)
        else answer (ok_id J id) (error_code J "in_use" (concat "source in use by a task: " id))
            (remove_source m id))

    unfoldable pub add_pipeline_command : TaskManager P → Value → Response Value × TaskManager P
    add_pipeline_command m req = with_id m req (λ id. with_read m (read_pipeline req id) (λ p.
        answer (ok_id J id) (error_message J (concat "already exists: " id)) (add_pipeline m p)))

    unfoldable pub remove_pipeline_command : TaskManager P → Value → Response Value × TaskManager P
    remove_pipeline_command m req = with_read m (value_text J req "id" "") (λ id.
        if not (any (λ p. str_eq p.id id) (list_pipelines m))
        then (sends (not_found id), m)
        else answer (ok_id J id) (error_code J "in_use" (concat "pipeline in use by a task: " id))
            (remove_pipeline m id))

    unfoldable pub remove_task_command : TaskManager P → Value → Response Value × TaskManager P
    remove_task_command m req = with_read m (value_text J req "id" "") (λ id.
        if not (any (λ info. str_eq info.config.id id) (list_tasks m))
        then (sends (not_found id), m)
        else answer (ok_id J id) (not_found id) (remove_task m id))

    module _ (create : StageConfig → Context → Option Stage) (fails : String → String → Bool) where
      unfoldable pub start_command : TaskManager P → Value → Response Value × TaskManager P
      start_command m req = with_read m (value_text J req "id" "") (λ id.
          answer (ok_id J id) (error_message J (concat "task not found: " id)) (start fails m id))

      -- The answer to an update that returned `false` tells why, from the tasks as they are after it.
      abbrev pub not_updated : String → TaskManager P → Value
      not_updated id m =
          if any (runs_it id) (list_tasks m)
          then error_code J "in_use" (concat "pipeline in use by a running task: " id)
          else error_code J "invalid_pipeline" (concat "failed to apply pipeline update: " id)

      unfoldable pub update_pipeline_command :
          TaskManager P → Value → Response Value × TaskManager P
      update_pipeline_command m req = with_id m req (λ id. with_read m (read_pipeline req id) (λ p.
          if not (any (λ p. str_eq p.id id) (list_pipelines m))
          then (sends (not_found id), m)
          else let result = update_pipeline create fails m p in
            answer (ok_id J id) (not_updated id result.1) result))

      unfoldable pub add_task_command : TaskManager P → Value → Response Value × TaskManager P
      add_task_command m req = with_read m (read_names req) (λ names.
          if lacks_name names
          then (sends missing_names, m)
          else with_read m (read_new_task req names) (λ new.
            answer (ok_id J names.0) (error_message J (concat "failed to add task: " names.0))
              (add_task create fails m new.0 new.1)))

      unfoldable pub update_task_command : TaskManager P → Value → Response Value × TaskManager P
      update_task_command m req = with_read m (read_names req) (λ names.
          if lacks_name names
          then (sends missing_names, m)
          else with_read m (read_task req names) (λ t.
            answer (ok_id J names.0)
              (error_message J (concat "not found, running, or invalid deps: " names.0))
              (update_task create fails m t)))
