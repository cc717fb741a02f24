-- ===== src/Server/Answers.antt =====
-- `UnixSocketServer::dispatch` of src/server/UnixSocketServer.cpp against the table of commands, for one line
-- and for the lines of the connections.
use mathlib.Core.Path.{subst}
use Prim.Native.String.{◌++◌ as concat}
use inference_server.Shared.{
  ◌≡◌, refl, String, List, [], ◌∷◌, Option, none, some, if◌then◌else◌, str_eq, map,
}
use inference_server.Json.{Json, IsLawful}
use inference_server.Json.Readers.{value_text}
use inference_server.TaskManager.{TaskManager}
use inference_server.TaskManager.Integrity.{IsClosed}
use inference_server.TaskManager.Requests.{serve-IsClosed}
use inference_server.Server.{Response, sends, error_message}
use inference_server.Server.Listings.{
  tasks_command, sources_command, pipelines_command, models_command, repository_command,
}
use inference_server.Server.Dispatch.{
  Services, command, dispatch, dispatch_value, handle_lines, go_on,
}
use inference_server.Server.Meaning.{
  Meaning, meaning_in, commands, meaning, meaning_of_value, carry_out,
}
use inference_server.Server.Handling.{
  Handles, reports, refuses, aborts, serves, breaks, with_read-Handles, if-Handles, refuse,
  start_command-Handles, stop_command-Handles, add_source_command-Handles,
  remove_source_command-Handles, add_pipeline_command-Handles, remove_pipeline_command-Handles,
}
use inference_server.Server.Handled.{
  add_task_command-Handles, update_task_command-Handles, remove_task_command-Handles,
  load_command-Handles, load_model_command-Handles, unload_model_command-Handles,
  update_pipeline_command-Handles,
}

module _ (J : Json) (laws : IsLawful J) {T : Type 0} (s : Services T) {P : Type 0} where
  open J use {Value, text, array}

  -- One test of the chain, and one line of the table.
  case-Handles :
      (m : TaskManager P) (cmd name : String) (f : Value → Meaning Value P)
      (rest : List (String × (Value → Meaning Value P))) (req : Value)
      (x y : Response Value × TaskManager P)
      → Handles J s m (f req) x
      → Handles J s m (meaning_in J s rest cmd req) y
      → Handles J s m (meaning_in J s ((name, f) ∷ rest) cmd req) (if str_eq cmd name then x else y)
  unfolding meaning_in
  case-Handles m cmd name f rest req x y h k =
      if-Handles J s m (str_eq cmd name) (f req) (meaning_in J s rest cmd req) x y h k

  unknown-Handles :
      (m : TaskManager P) (cmd : String) (req : Value)
      → Handles J s m
          (meaning_in J s [] cmd req)
          (sends (error_message J (concat "unknown command: " cmd)), m)
  unfolding meaning_in
  unknown-Handles m cmd req =
      refuse J s m laws (("message", text (concat "unknown command: " cmd)) ∷ [])

  command-Handles :
      (cmd : String) (m : TaskManager P) (req : Value)
      → IsClosed m
      → Handles J s m (meaning_in J s (commands J s) cmd req) (command J s cmd m req)
  unfolding command tasks_command sources_command pipelines_command models_command
      repository_command
  command-Handles cmd m req closed = case-Handles m cmd "health" _ _ req _ _ (reports _) (
      case-Handles m cmd "metrics" _ _ req _ _ (reports _) (
        case-Handles m cmd "list_tasks" _ _ req _ _ (reports _) (
          case-Handles m cmd "start_task" _ _ req _ _ (start_command-Handles J s m laws req) (
            case-Handles m cmd "stop_task" _ _ req _ _ (stop_command-Handles J s m laws req) (
              case-Handles m cmd "list_sources" _ _ req _ _ (reports _) (
                case-Handles m cmd "list_pipelines" _ _ req _ _ (reports _) (
                  case-Handles m cmd "list_models" _ _ req _ _ (reports _) (
                    case-Handles m cmd "list_repository" _ _ req _ _ (reports _) (
                      case-Handles m cmd "load_from_repository" _ _ req _ _
                        (load_command-Handles J laws s m req)
                        (case-Handles m cmd "add_source" _ _ req _ _
                          (add_source_command-Handles J s m laws req)
                          (case-Handles m cmd "remove_source" _ _ req _ _
                            (remove_source_command-Handles J s m laws req)
                            (case-Handles m cmd "add_pipeline" _ _ req _ _
                              (add_pipeline_command-Handles J s m laws req)
                              (case-Handles m cmd "update_pipeline" _ _ req _ _
                                (update_pipeline_command-Handles J laws s m req)
                                (case-Handles m cmd "remove_pipeline" _ _ req _ _
                                  (remove_pipeline_command-Handles J s m laws req)
                                  (case-Handles m cmd "add_task" _ _ req _ _
                                    (add_task_command-Handles J laws s m req)
                                    (case-Handles m cmd "update_task" _ _ req _ _
                                      (update_task_command-Handles J laws s m req)
                                      (case-Handles m cmd "remove_task" _ _ req _ _
                                        (remove_task_command-Handles J laws s m closed req)
                                        (case-Handles m cmd "load_model" _ _ req _ _
                                          (load_model_command-Handles J laws s m req)
                                          (case-Handles m cmd "unload_model" _ _ req _ _
                                            (unload_model_command-Handles J laws s m req)
                                            (unknown-Handles m cmd req))))))))))))))))))))

  -- Where the configuration holds together, dispatch does with every line what the table of
  -- commands says that the line means: a line that the readers throw on throws and changes
  -- nothing; a line that is no JSON, has an unknown command or lacks a required name is answered
  -- without ok and changes nothing; a listing is answered with what it lists and changes nothing;
  -- and a line that asks for a request to the task manager leaves the manager that this request
  -- leaves, with an answer that says ok exactly if the request returned true, or throws if the
  -- request throws.
  pub dispatch-Handles :
      (m : TaskManager P) (line : String)
      → IsClosed m
      → Handles J s m (meaning J s line) (dispatch J s m line)
  unfolding dispatch meaning
  dispatch-Handles m line closed = parsed (J.parse line)
    where
      parsed : (o : Option Value) → Handles J s m (meaning_of_value J s o) (dispatch_value J s m o)
      parsed none = refuse J s m laws (("message", text "invalid json") ∷ [])
      parsed (some req) =
          with_read-Handles J s m (value_text J req "cmd" "") _ _
            (λ cmd. command-Handles cmd m req closed)

  -- One line and those after it.
  go_on-carry_out :
      (m : TaskManager P) (x : Meaning Value P) (xs : List (Meaning Value P))
      (r : Response Value × TaskManager P) (after : TaskManager P → TaskManager P)
      → IsClosed m
      → ((n : TaskManager P) → IsClosed n → after n ≡ carry_out J s n xs)
      → Handles J s m x r
      → go_on J s r.0 r.1 (after r.1) ≡ carry_out J s m (x ∷ xs)
  unfolding carry_out
  go_on-carry_out m _ xs _ after closed h aborts = refl
  go_on-carry_out m _ xs _ after closed h (refuses v e) = h m closed
  go_on-carry_out m _ xs _ after closed h (reports f) = h m closed
  go_on-carry_out m _ xs _ after closed h (serves r b n v e k) =
      rw e (h n (subst (λ x. IsClosed x.1) e (serve-IsClosed s.create s.fails s.repo m r closed)))
  go_on-carry_out m _ xs _ after closed h (breaks r n e) = rw e refl

  -- Where the configuration holds together at first, the lines of the connections, handled one
  -- after the other until one throws, leave the manager that the requests that the lines ask for
  -- leave, made in the order of the lines up to the first line that cannot be read or request that
  -- throws.
  pub handle_lines-carry_out :
      (m : TaskManager P) (lines : List String)
      → IsClosed m
      → handle_lines J s m lines ≡ carry_out J s m (map (meaning J s) lines)
  unfolding handle_lines carry_out
  handle_lines-carry_out m [] closed = refl
  handle_lines-carry_out m (line ∷ lines) closed =
      go_on-carry_out m (meaning J s line) (map (meaning J s) lines) (dispatch J s m line)
        (λ n. handle_lines J s n lines) closed (λ n c. handle_lines-carry_out n lines c)
        (dispatch-Handles m line closed)
