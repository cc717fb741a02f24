-- ===== src/Server/Samples.antt =====
-- Runs of `UnixSocketServer::dispatch` of src/server/UnixSocketServer.cpp on the deployment.
use inference_server.Shared.{◌≡◌, refl, true, String, List, [], ◌∷◌, none, some, map, lookup, arith}
use inference_server.Shared.Int.{ℤ, pos}
use inference_server.Deployment.{task, manager, create, fails_out}
use inference_server.Json.{Json}
use inference_server.Json.Readers.{value_text, value, value_int, value_bool}
use inference_server.Json.Plain.{Plain, plain_json, plain_json-IsLawful}
use inference_server.Stream.Health.{stopped}
use inference_server.TaskManager.Requests.{put_task}
use inference_server.Server.Dispatch.{Services, dispatch, handle_lines}
use inference_server.Server.Handling.{Handles}
use inference_server.Server.Answers.{dispatch-Handles, handle_lines-carry_out}
use inference_server.Server.Meaning.{meaning, meaning_in, asks, carry_out}
use inference_server.Server.Edits.{read_new_task}
use inference_server.TaskManager.Integrity.{IsClosed}

abbrev raw : Json
raw = plain_json none

-- A request that adds a task.
abbrev request : Plain
request = raw.object (
    ("cmd", raw.text "add_task")
    ∷ ("id", raw.text "gate")
    ∷ ("source_id", raw.text "front")
    ∷ ("pipeline_id", raw.text "detect")
    ∷ [])

abbrev json : Json
json = plain_json (some request)

abbrev services : Services ℤ
services = record {
  create = create;
  fails = fails_out;
  repo = λ path. none;
  health = λ id. record {
    state = stopped;
    last_frame_ts = pos 0;
    state_changed_at = pos 0;
    reconnect_count = 0;
    consecutive_failures = 0;
  };
  metrics = "";
  show = λ n. "1";
  stoi = λ s. none;
}

manager-IsClosed : IsClosed manager
unfolding lookup
manager-IsClosed = record { tasks = tt; entries = λ id h. ground arith }

dispatch-Handles_example :
    Handles json services manager (meaning json services "{}") (dispatch json services manager "{}")
dispatch-Handles_example =
    dispatch-Handles json (plain_json-IsLawful (some request)) services manager "{}"
      manager-IsClosed

-- The line asks for the task.
meaning_run :
    meaning json services {P = String} "{}"
    ≡ asks (put_task (record task { sample_fps = pos 5 }) true)
unfolding meaning meaning_in read_new_task value_text value lookup value_int value_bool
meaning_run = refl

abbrev lines : List String
lines = "{}" ∷ "{}" ∷ []

handle_lines-carry_out_example :
    handle_lines json services manager lines
    ≡ carry_out json services manager (map (meaning json services) lines)
handle_lines-carry_out_example =
    handle_lines-carry_out json (plain_json-IsLawful (some request)) services manager lines
      manager-IsClosed
