-- ===== src/TaskManager/Samples.antt =====
-- Runs of the manager of src/pipeline/TaskManager.cpp on the deployment.
use inference_server.Shared.{
  map, find_id, All, ◌≡◌, refl, true, false, String, List, [], ◌∷◌, Option, none, some, lookup,
  arith,
}
use inference_server.Config.{ModelConfig}
use inference_server.Deployment.{
  no_changes, config, manager, create, never_fails, fails_out, task, camera, pipeline,
}
use inference_server.TaskManager.{TaskManager, Entry, stopped, build_entry}
use inference_server.TaskManager.Entries.{is_running, start, stop}
use inference_server.TaskManager.Frame.{Built, build_entry_cases}
use inference_server.TaskManager.Integrity.{IsClosed}
use inference_server.TaskManager.Listing.{list_tasks}
use inference_server.TaskManager.{make, write_saves}
use mathlib.Core.Path.{subst}
use inference_server.Shared.{sym, ℕ, erase_id}
use inference_server.Shared.Int.{ℤ, pos}
use inference_server.Json.{Json}
use inference_server.Json.Plain.{Plain, plain_json, plain_json-IsLawful}
use inference_server.RuntimeState.{RuntimeState}
use inference_server.RuntimeState.Lookup.{forget}
use inference_server.RuntimeState.Writing.{state_to_json, source_to_json}
use inference_server.RuntimeState.Loading.{Disk, load_runtime_state, runtime_state_path}
use inference_server.RuntimeState.Restored.{IsRecorded}
use inference_server.TaskManager.Mutations.{add_source, remove_source}
use inference_server.RuntimeState.{append_missing, erase_by_id}
use inference_server.TaskManager.Restart.{
  Edit, adds_source, removes_source, IsRecoverable, IsNew, edit, edit_all,
}
use inference_server.TaskManager.Effects.{Done, call, call-Done}
use inference_server.TaskManager.Restart.Sequences.{Restarts, IsKept, edit_all-FindSame}
use inference_server.TaskManager.Url.{
  interpolate_output_url, interpolate, text, break_at, size, after_text, after_brace, token_value,
}
use inference_server.TaskManager.Template.{HasEnded, interpolate_output_url-HasEnded}
use inference_server.TaskManager.Listing.Reports.{mark_of, entry_mark, list_tasks-find_task}
use inference_server.Config.{find_task}
use inference_server.TaskManager.Touched.{AllAgree}
use inference_server.TaskManager.Agreement.{start-AllAgree, stop-AllAgree}
use inference_server.TaskManager.Race.{stop_within_start, stop_within_start_lem}
use inference_server.TaskManager.Requests.{
  Request, serve_all, serve_all-IsClosed, put_task, start_task, change_pipeline, put_source,
  drop_source, take_task, stop_tasks,
}

abbrev no_repository : String → Option (List ModelConfig)
no_repository path = none

manager-IsClosed : IsClosed manager
unfolding lookup
manager-IsClosed = record { tasks = tt; entries = λ id h. ground arith }

abbrev requests : List Request
requests =
    put_source (camera "back")
    ∷ put_task task false
    ∷ start_task "gate"
    ∷ change_pipeline pipeline
    ∷ drop_source "front"
    ∷ stop_tasks
    ∷ take_task "gate"
    ∷ []

serve_all-IsClosed_example : IsClosed (serve_all create fails_out no_repository manager requests)
serve_all-IsClosed_example =
    serve_all-IsClosed create fails_out no_repository manager requests manager-IsClosed

build_entry_cases_example : Built manager task (build_entry create never_fails manager task true)
build_entry_cases_example = build_entry_cases create never_fails manager task true

abbrev idle : Entry String
idle = record {
  executor = record {
    cfg = pipeline;
    stages = ("in", record { id = "in"; is_source = true }) ∷ [];
    outgoing = [];
    incoming_edge_keys = [];
    edges = [];
    worker_threads = [];
    running = false;
  };
  state = stopped;
}

abbrev with_entry : TaskManager String
with_entry = record manager { entries = ("gate", idle) ∷ [] }

with_entry-AllAgree : AllAgree with_entry
unfolding lookup
with_entry-AllAgree id e h = ground arith

start-AllAgree_example : AllAgree (start never_fails with_entry "gate").1
start-AllAgree_example = start-AllAgree never_fails with_entry "gate" with_entry-AllAgree

stop-AllAgree_example : AllAgree (stop with_entry "gate").1
stop-AllAgree_example = stop-AllAgree with_entry "gate" with_entry-AllAgree

found : lookup with_entry.entries "gate" ≡ some idle
unfolding lookup
found = refl

stop_within_start_lem_example :
    (f : Entry String) × (lookup (stop_within_start never_fails with_entry "gate").entries "gate"
      ≡ some f)
    × (is_running f ≡ false)
    × (f.executor.running ≡ true)
stop_within_start_lem_example = stop_within_start_lem never_fails with_entry "gate" idle found refl

abbrev with_task : TaskManager String
with_task = record with_entry { cfg = record config { tasks = task ∷ [] } }

with_task-IsClosed : IsClosed with_task
unfolding find_id lookup
with_task-IsClosed = record { tasks = ((refl, refl), tt); entries = λ id h. ground arith }

list_tasks-find_task_example :
    (map mark_of (list_tasks with_task) ≡ map entry_mark with_task.entries)
    × All (λ i. find_task with_task.cfg i.config.id ≡ some i.config) (list_tasks with_task)
list_tasks-find_task_example = list_tasks-find_task with_task with_task-IsClosed

abbrev edits : List Edit
edits = adds_source (camera "back") ∷ removes_source "front" ∷ []

manager-IsRecoverable : IsRecoverable config no_changes manager
unfolding append_missing erase_by_id
manager-IsRecoverable = record {
  saved = refl;
  sources = λ j. refl;
  pipelines = λ j. refl;
  tasks = λ j. refl;
  models = λ j. refl;
}

edits-IsNew : All (IsNew config) edits
unfolding find_id
edits-IsNew = (refl, (tt, tt))

abbrev show : ℤ → String
show n = "1"

abbrev stoi : String → Option ℤ
stoi s = some (pos 1)

-- The changes that the edits leave.
abbrev changes : RuntimeState
changes = record no_changes {
  added_sources = camera "back" ∷ [];
  removed_source_ids = "front" ∷ [];
}

edits-changes : (edit_all manager edits).runtime_state ≡ changes
unfolding edit_all edit add_source remove_source find_id erase_id forget
edits-changes = refl

-- The values of the record, and a parser that finds them.
abbrev written : Option Plain
written = some (state_to_json (plain_json none) show changes)

abbrev json : Json
json = plain_json written

abbrev disk : ℕ → Disk
disk n = record { opens = true; written = λ s. s; renames = true }

changes-IsKept : IsKept json (plain_json-IsLawful written) show stoi disk "server.yaml" [] changes
unfolding state_to_json source_to_json
changes-IsKept = record { opens = λ n. refl; renames = λ n. refl; parses = λ n. refl }

changes-IsRecorded : IsRecorded json (plain_json-IsLawful written) show stoi changes
unfolding IsRecorded
changes-IsRecorded = (tt, tt)

no_file : load_runtime_state json stoi [] (runtime_state_path "server.yaml") ≡ some no_changes
unfolding load_runtime_state lookup
no_file = refl

edit_all-FindSame_example :
    Restarts {P = String}
      (make json stoi
        (write_saves json show disk "server.yaml" (edit_all manager edits).saves [])
        "server.yaml"
        config)
      (edit_all manager edits).cfg
edit_all-FindSame_example =
    edit_all-FindSame json (plain_json-IsLawful written) show stoi disk "server.yaml" [] config
      no_changes manager edits no_file manager-IsRecoverable edits-IsNew
      (subst (IsKept json (plain_json-IsLawful written) show stoi disk "server.yaml" [])
        (sym edits-changes) changes-IsKept)
      (subst (IsRecorded json (plain_json-IsLawful written) show stoi) (sym edits-changes)
        changes-IsRecorded)

call-Done_example : Done manager (removes_source "front") (call manager (removes_source "front"))
call-Done_example = call-Done manager (removes_source "front")

interpolate_run : interpolate_output_url task "rtsp://host/{task_id}" ≡ text "rtsp://host/gate"
unfolding interpolate_output_url interpolate break_at size after_text after_brace token_value
interpolate_run = refl

interpolate_output_url-HasEnded_example :
    HasEnded (interpolate_output_url task "rtsp://host/{task_id}")
interpolate_output_url-HasEnded_example =
    interpolate_output_url-HasEnded task "rtsp://host/{task_id}"
