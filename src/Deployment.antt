-- ===== src/Deployment.antt =====
-- A small deployment on which the models of src/ and include/ are run: two cameras, one pipeline of two
-- nodes, and one task.
use inference_server.Shared.{Bool, true, false, String, [], ◌∷◌, Option, some, str_eq}
use inference_server.Shared.Int.{pos}
use inference_server.Config.{
  AppConfig, PipelineSourceConfig, StageConfig, EdgeConfig, PipelineConfig, TaskConfig, block,
  frame_count,
}
use inference_server.RuntimeState.{RuntimeState}
use inference_server.Graph.{Stage, GraphExecutor}
use inference_server.TaskManager.{TaskManager, Context}

abbrev pub camera : String → PipelineSourceConfig
camera id = record {
  id = id;
  url = "rtsp://camera";
  reconnect_delay_ms = pos 1000;
  max_reconnect_delay_ms = pos 30000;
  degraded_threshold = pos 5;
  max_reconnect_attempts = pos 0;
  open_timeout_ms = pos 5000;
  read_timeout_ms = pos 5000;
}

abbrev pub node : String → String → StageConfig
node id type = record { id = id; type = type; with_map = [] }

abbrev pub edge : EdgeConfig
edge = record { from = "in"; to = "out"; capacity = pos 2; drop_policy = block }

abbrev pub pipeline : PipelineConfig
pipeline = record {
  id = "detect";
  nodes = node "in" "source.stream" ∷ node "out" "sink.log" ∷ [];
  edges = edge ∷ [];
}

abbrev pub task : TaskConfig
task = record {
  id = "gate";
  source_id = "front";
  pipeline_id = "detect";
  sample_fps = pos 5;
  sampling_mode = frame_count;
  use_hwdec = false;
  use_ascend_dvpp = false;
  ascend_device_id = pos 0;
}

abbrev pub config : AppConfig
config = record {
  model_repository = "";
  models = [];
  sources = camera "front" ∷ [];
  pipelines = pipeline ∷ [];
  tasks = [];
}

abbrev pub no_changes : RuntimeState
no_changes = record {
  added_sources = [];
  removed_source_ids = [];
  added_pipelines = [];
  removed_pipeline_ids = [];
  added_tasks = [];
  removed_task_ids = [];
  added_models = [];
  removed_model_ids = [];
}

abbrev pub manager : TaskManager String
manager = record { cfg = config; runtime_state = no_changes; saves = []; entries = [] }

-- A factory that makes every stage, and an environment where no stage fails to start.
abbrev pub create : StageConfig → Context → Option Stage
create n ctx = some (record { id = n.id; is_source = str_eq n.type "source.stream" })

abbrev pub never_fails : String → String → Bool
never_fails task_id stage_id = false

abbrev pub fails_out : String → String → Bool
fails_out task_id stage_id = str_eq stage_id "out"

-- An executor with its stages, before `build`.
abbrev pub staged : GraphExecutor String
staged = record {
  cfg = pipeline;
  stages =
      ("in", record { id = "in"; is_source = true })
      ∷ ("out", record { id = "out"; is_source = false })
      ∷ [];
  outgoing = [];
  incoming_edge_keys = [];
  edges = [];
  worker_threads = [];
  running = false;
}
