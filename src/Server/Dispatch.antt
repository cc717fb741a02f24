-- ===== src/Server/Dispatch.antt =====
-- `UnixSocketServer::dispatch` of src/server/UnixSocketServer.cpp.
use Prim.Native.String.{◌++◌ as concat}
use inference_server.Shared.{String, List, [], ◌∷◌, Option, some, none, if◌then◌else◌, str_eq, Bool}
use inference_server.Shared.Int.{ℤ}
use inference_server.Config.{StageConfig, ModelConfig}
use inference_server.Graph.{Stage}
use inference_server.Json.{Json}
use inference_server.Json.Readers.{value_text}
use inference_server.Stream.Health.{StreamHealth}
use inference_server.TaskManager.{TaskManager, Context}
use inference_server.Server.{Response, sends, escapes, ok, ok_data, error_message, with_read}
use inference_server.Server.Listings.{
  tasks_command, sources_command, pipelines_command, models_command, repository_command,
}
use inference_server.Server.Edits.{
  start_command, stop_command, add_source_command, remove_source_command, add_pipeline_command,
  update_pipeline_command, remove_pipeline_command, add_task_command, update_task_command,
  remove_task_command,
}
use inference_server.Server.Models.{load_command, load_model_command, unload_model_command}

-- What the commands ask of the other parts: `StageFactory::create`, which stages fail to start,
-- `scanModelRepository`, the health of the sources, `Metrics::serialize`, `std::to_string` and `std::stoi`.
pub record Services (T : Type 0) : Type 0 where
  pub create : StageConfig → Context → Option Stage
  pub fails : String → String → Bool
  pub repo : String → Option (List ModelConfig)
  pub health : String → StreamHealth T
  pub metrics : String
  pub show : ℤ → String
  pub stoi : String → Option ℤ

module _ (J : Json) {T : Type 0} (s : Services T) where
  open J use {Value, text, parse, dump}

  module _ {P : Type 0} where
    unfoldable pub command : String → TaskManager P → Value → Response Value × TaskManager P
    command cmd m req =
        if str_eq cmd "health"
        then (sends (ok J []), m)
        else if str_eq cmd "metrics"
        then (sends (ok_data J (text s.metrics)), m)
        else if str_eq cmd "list_tasks"
        then tasks_command J m
        else if str_eq cmd "start_task"
        then start_command J s.create s.fails m req
        else if str_eq cmd "stop_task"
        then stop_command J m req
        else if str_eq cmd "list_sources"
        then sources_command J s.health m
        else if str_eq cmd "list_pipelines"
        then pipelines_command J m
        else if str_eq cmd "list_models"
        then models_command J s.show m
        else if str_eq cmd "list_repository"
        then repository_command J s.repo m
        else if str_eq cmd "load_from_repository"
        then load_command J s.stoi s.repo m req
        else if str_eq cmd "add_source"
        then add_source_command J m req
        else if str_eq cmd "remove_source"
        then remove_source_command J s.health m req
        else if str_eq cmd "add_pipeline"
        then add_pipeline_command J m req
        else if str_eq cmd "update_pipeline"
        then update_pipeline_command J s.create s.fails m req
        else if str_eq cmd "remove_pipeline"
        then remove_pipeline_command J m req
        else if str_eq cmd "add_task"
        then add_task_command J s.create s.fails m req
        else if str_eq cmd "update_task"
        then update_task_command J s.create s.fails m req
        else if str_eq cmd "remove_task"
        then remove_task_command J m req
        else if str_eq cmd "load_model"
        then load_model_command J s.stoi m req
        else if str_eq cmd "unload_model"
        then unload_model_command J s.stoi s.show m req
        else (sends (error_message J (concat "unknown command: " cmd)), m)

    abbrev pub dispatch_value : TaskManager P → Option Value → Response Value × TaskManager P
    dispatch_value m none = (sends (error_message J "invalid json"), m)
    dispatch_value m (some req) = with_read m (value_text J req "cmd" "") (λ cmd. command cmd m req)

    -- The answer's value, before `dump`.
    unfoldable pub dispatch : TaskManager P → String → Response Value × TaskManager P
    dispatch m line = dispatch_value m (parse line)

    -- After an exception no further line is handled.
    abbrev pub go_on : Response Value → TaskManager P → TaskManager P → TaskManager P
    go_on (sends v) m rest = rest
    go_on escapes m rest = m

    -- The lines of the connections, in the order in which their commands run. An exception that leaves
    -- `dispatch` ends its thread, and so the process.
    unfoldable pub handle_lines : TaskManager P → List String → TaskManager P
    handle_lines m [] = m
    handle_lines m (line ∷ lines) =
        let (response, m') = dispatch m line in go_on response m' (handle_lines m' lines)
