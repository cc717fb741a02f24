-- ===== src/Server/Meaning.antt =====
-- What a line that src/server/UnixSocketServer.cpp receives asks of src/pipeline/TaskManager.cpp: the
-- protocol as a table of its commands, apart from the code that carries them out.
use inference_server.Shared.{String, List, [], ◌∷◌, Option, none, some, if◌then◌else◌, str_eq, map}
use inference_server.Json.{Json}
use inference_server.Json.Readers.{value_text}
use inference_server.TaskManager.{TaskManager, Reply, returns, throws}
use inference_server.TaskManager.Requests.{
  Request, serve, start_task, stop_task, take_task, drop_source, drop_pipeline, drop_model,
  load_repository, put_source, put_pipeline, change_pipeline, put_task, change_task, put_model,
}
use inference_server.TaskManager.Listing.{
  list_tasks, list_sources, list_pipelines, list_models, list_repository_models,
}
use inference_server.Server.{ok, ok_data}
use inference_server.Server.Edits.{
  read_source, read_pipeline, read_names, lacks_name, read_new_task, read_task,
}
use inference_server.Server.Models.{read_model}
use inference_server.Server.Listings.{
  task_json, source_json, pipeline_json, model_json, repository_json,
}
use inference_server.Server.Dispatch.{Services}

-- The line makes the reader throw, it is refused, it asks for a report, or for a change.
pub data Meaning (V P : Type 0) : Type 0 where
  unreadable : Meaning V P
  refused : Meaning V P
  lists : (TaskManager P → V) → Meaning V P
  asks : Request → Meaning V P

module _ (J : Json) {T : Type 0} (s : Services T) {P : Type 0} where
  open J use {Value, text, array}

  abbrev pub meaning_with {ℓ} : {A : Type ℓ} → Option A → (A → Meaning Value P) → Meaning Value P
  meaning_with none f = unreadable
  meaning_with (some a) f = f a

  -- A request about the entry that `id` names.
  abbrev pub named : (String → Request) → Value → Meaning Value P
  named r req = meaning_with (value_text J req "id" "") (λ id. asks (r id))

  -- A request that must name an entry.
  abbrev pub identified : (Value → String → Meaning Value P) → Value → Meaning Value P
  identified f req =
      meaning_with (value_text J req "id" "") (λ id. if str_eq id "" then refused else f req id)

  -- A request that must name a task, its source and its pipeline.
  abbrev pub linked : (Value → String × String × String → Meaning Value P) → Value → Meaning Value P
  linked f req =
      meaning_with (read_names J req) (λ names. if lacks_name J names then refused else f req names)

  abbrev pub commands : List (String × (Value → Meaning Value P))
  commands =
      ("health", λ req. lists (λ m. ok J []))
      ∷ ("metrics", λ req. lists (λ m. ok_data J (text s.metrics)))
      ∷ ("list_tasks", λ req. lists (λ m. ok_data J (array (map (task_json J) (list_tasks m)))))
      ∷ ("start_task", named (λ id. start_task id))
      ∷ ("stop_task", named (λ id. stop_task id))
      ∷ (
        "list_sources",
        λ req. lists (λ m. ok_data J (array (map (source_json J) (list_sources s.health m)))),
      )
      ∷ (
        "list_pipelines",
        λ req. lists (λ m. ok_data J (array (map (pipeline_json J) (list_pipelines m)))),
      )
      ∷ (
        "list_models",
        λ req. lists (λ m. ok_data J (array (map (model_json J) (list_models s.show m)))),
      )
      ∷ (
        "list_repository",
        λ req.
            lists
              (λ m. ok_data J (array (map (repository_json J) (list_repository_models s.repo m)))),
      )
      ∷ ("load_from_repository", identified (λ req id. asks (load_repository id)))
      ∷ (
        "add_source",
        identified (λ req id. meaning_with (read_source J req id) (λ src. asks (put_source src))),
      )
      ∷ ("remove_source", named (λ id. drop_source id))
      ∷ (
        "add_pipeline",
        identified (λ req id. meaning_with (read_pipeline J req id) (λ p. asks (put_pipeline p))),
      )
      ∷ (
        "update_pipeline",
        identified
            (λ req id. meaning_with (read_pipeline J req id) (λ p. asks (change_pipeline p))),
      )
      ∷ ("remove_pipeline", named (λ id. drop_pipeline id))
      ∷ (
        "add_task",
        linked (λ req names.
            meaning_with (read_new_task J req names) (λ new. asks (put_task new.0 new.1))),
      )
      ∷ (
        "update_task",
        linked (λ req names. meaning_with (read_task J req names) (λ t. asks (change_task t))),
      )
      ∷ ("remove_task", named (λ id. take_task id))
      ∷ (
        "load_model",
        identified (λ req id. meaning_with (read_model J s.stoi req id) (λ x. asks (put_model x))),
      )
      ∷ ("unload_model", named (λ id. drop_model id))
      ∷ []

  -- A command that is not in the table is refused.
  unfoldable pub meaning_in :
      List (String × (Value → Meaning Value P)) → String → Value → Meaning Value P
  meaning_in [] cmd req = refused
  meaning_in ((name, f) ∷ rest) cmd req =
      let other = meaning_in rest cmd req in if str_eq cmd name then f req else other

  abbrev pub meaning_of_value : Option Value → Meaning Value P
  meaning_of_value none = refused
  meaning_of_value (some req) =
      meaning_with (value_text J req "cmd" "") (λ cmd. meaning_in commands cmd req)

  -- The meaning of a line.
  unfoldable pub meaning : String → Meaning Value P
  meaning line = meaning_of_value (J.parse line)

  abbrev pub carry_on : Reply × TaskManager P → TaskManager P → TaskManager P
  carry_on (returns b, n) rest = rest
  carry_on (throws, n) rest = n

  -- The manager after lines with these meanings, up to the first that throws.
  unfoldable pub carry_out : TaskManager P → List (Meaning Value P) → TaskManager P
  carry_out m [] = m
  carry_out m (unreadable ∷ rest) = m
  carry_out m (refused ∷ rest) = carry_out m rest
  carry_out m (lists f ∷ rest) = carry_out m rest
  carry_out m (asks r ∷ rest) =
      let result = serve s.create s.fails s.repo m r in carry_on result (carry_out result.1 rest)
