-- ===== src/Server/Handled.antt =====
-- The commands of `UnixSocketServer::dispatch` of src/server/UnixSocketServer.cpp on pipelines that are
-- replaced, on tasks and on models, against what they mean.
use Prim.Native.String.{◌++◌ as concat}
use inference_server.Shared.{
  ◌≡◌, refl, Bool, true, false, not, String, List, [], ◌∷◌, if◌then◌else◌, str_eq, any,
}
use inference_server.Json.{Json, IsLawful}
use inference_server.TaskManager.{TaskManager, Reply, returns, throws}
use inference_server.TaskManager.Requests.{
  serve, take_task, drop_model, load_repository, put_task, change_task, put_model, change_pipeline,
}
use inference_server.Server.{Response, sends, ok_id, error, error_message, with_read, answer}
use inference_server.Server.Edits.{
  read_pipeline, update_pipeline_command, not_updated, runs_it, add_task_command,
  update_task_command, remove_task_command, lacks_name, read_names, read_new_task, read_task,
}
use inference_server.TaskManager.Listing.{list_tasks, list_pipelines, list_models}
use inference_server.Server.Models.{
  read_model, load_command, load_model_command, unload_model_command,
}
use inference_server.Server.Dispatch.{Services}
use inference_server.Config.{PipelineConfig}
use inference_server.TaskManager.Integrity.{IsClosed}
use inference_server.Server.Meaning.{Meaning, asks, meaning_with, named, identified, linked}
use inference_server.Server.Missing.{
  unload_model-missing, remove_task-missing, update_pipeline-missing,
}
use inference_server.Server.Handling.{
  is_ok, is_ok-ok, is_ok-error, Handles, serves, breaks, with_read-Handles, with_known-Handles,
  if-Handles, missing-Handles, refuse, answer-Handles, with_id-Handles, removal-Handles,
  read_pipeline-id,
}

is_ok-if :
    (J : Json) (laws : IsLawful J) (b : Bool) (xs ys : List (String × J.Value))
    → is_ok J (if b then error J xs else error J ys) ≡ false
is_ok-if J laws true xs ys = is_ok-error J laws xs
is_ok-if J laws false xs ys = is_ok-error J laws ys

module _ (J : Json) (laws : IsLawful J) {T : Type 0} (s : Services T) {P : Type 0}
    (m : TaskManager P) where
  open J use {Value, text}

  updated-Handles :
      (id : String) (p : PipelineConfig) (result : Reply × TaskManager P)
      → serve s.create s.fails s.repo m (change_pipeline p) ≡ result
      → Handles J s m
          (asks (change_pipeline p))
          (answer (ok_id J id) (not_updated J s.create s.fails id result.1) result)
  updated-Handles id p (returns true, n) e =
      serves (change_pipeline p) true n _ e (is_ok-ok J laws _)
  updated-Handles id p (returns false, n) e = serves (change_pipeline p) false n _ e (
      is_ok-if J laws (any (runs_it J id) (list_tasks n))
        (("code", text "in_use")
          ∷ ("message", text (concat "pipeline in use by a running task: " id))
          ∷ [])
        (("code", text "invalid_pipeline")
          ∷ ("message", text (concat "failed to apply pipeline update: " id))
          ∷ []))
  updated-Handles id p (throws, n) e = breaks (change_pipeline p) n e

  pub update_pipeline_command-Handles :
      (req : Value)
      → Handles J s m
          (identified J s
            (λ req id. meaning_with J s (read_pipeline J req id) (λ p. asks (change_pipeline p)))
            req)
          (update_pipeline_command J s.create s.fails m req)
  unfolding update_pipeline_command serve
  update_pipeline_command-Handles req = with_id-Handles J s m laws req _ _ (λ id.
      with_known-Handles J s m (λ (p : PipelineConfig). p.id ≡ id) (read_pipeline J req id) _ _
        (read_pipeline-id J req id)
        (λ p same.
          missing-Handles J s m (not (any (λ x. str_eq x.id id) (list_pipelines m)))
            (change_pipeline p) _ _ (update_pipeline-missing m id s.create s.fails p same)
            (is_ok-error J laws _) (updated-Handles id p _ refl)))

  with_names-Handles :
      (req : Value) (g : String × String × String → Meaning Value P)
      (f : String × String × String → Response Value × TaskManager P)
      → ((names : String × String × String) → Handles J s m (g names) (f names))
      → Handles J s m (linked J s (λ req. g) req) (
          with_read m (read_names J req) (λ names.
            if lacks_name J names
            then (sends (error_message J "missing required fields: id, source_id, pipeline_id"), m)
            else f names))
  with_names-Handles req g f h = with_read-Handles J s m (read_names J req) _ _ (λ names.
      if-Handles J s m (lacks_name J names) _ _ _ (f names)
        (refuse J s m laws
          (("message", text "missing required fields: id, source_id, pipeline_id") ∷ []))
        (h names))

  pub add_task_command-Handles :
      (req : Value)
      → Handles J s m
          (linked J s
            (λ req names.
              meaning_with J s (read_new_task J req names) (λ new. asks (put_task new.0 new.1)))
            req)
          (add_task_command J s.create s.fails m req)
  unfolding add_task_command serve
  add_task_command-Handles req = with_names-Handles req _ _ (λ names.
      with_read-Handles J s m (read_new_task J req names) _ _ (λ (task, autostart).
        answer-Handles J s m laws (put_task task autostart) (("id", text names.0) ∷ [])
          (("message", text (concat "failed to add task: " names.0)) ∷ []) _ refl))

  pub update_task_command-Handles :
      (req : Value)
      → Handles J s m
          (linked J s
            (λ req names. meaning_with J s (read_task J req names) (λ t. asks (change_task t)))
            req)
          (update_task_command J s.create s.fails m req)
  unfolding update_task_command serve
  update_task_command-Handles req = with_names-Handles req _ _ (λ names.
      with_read-Handles J s m (read_task J req names) _ _ (λ t.
        answer-Handles J s m laws (change_task t) (("id", text names.0) ∷ [])
          (("message", text (concat "not found, running, or invalid deps: " names.0)) ∷ []) _ refl))

  pub remove_task_command-Handles :
      IsClosed m
      → (req : Value)
      → Handles J s m (named J s (λ id. take_task id) req) (remove_task_command J m req)
  unfolding remove_task_command serve
  remove_task_command-Handles closed req =
      removal-Handles J s m laws req (λ id. not (any (λ x. str_eq x.config.id id) (list_tasks m)))
        "not_found" "not found: " (λ id. take_task id) (λ id. remove_task-missing m id closed)

  pub load_command-Handles :
      (req : Value)
      → Handles J s m
          (identified J s (λ req id. asks (load_repository id)) req)
          (load_command J s.stoi s.repo m req)
  unfolding load_command serve
  load_command-Handles req =
      with_id-Handles J s m laws req _ _
        (λ id. answer-Handles J s m laws (load_repository id) _ _ _ refl)

  pub load_model_command-Handles :
      (req : Value)
      → Handles J s m
          (identified J s
            (λ req id. meaning_with J s (read_model J s.stoi req id) (λ x. asks (put_model x)))
            req)
          (load_model_command J s.stoi m req)
  unfolding load_model_command serve
  load_model_command-Handles req = with_id-Handles J s m laws req _ _ (λ id.
      with_read-Handles J s m _ _ _
        (λ model. answer-Handles J s m laws (put_model model) _ _ _ refl))

  pub unload_model_command-Handles :
      (req : Value)
      → Handles J s m
          (named J s (λ id. drop_model id) req)
          (unload_model_command J s.stoi s.show m req)
  unfolding unload_model_command serve
  unload_model_command-Handles req =
      removal-Handles J s m laws req (λ id. not (any (λ x. str_eq x.id id) (list_models s.show m)))
        "in_use" "model in use by a running task: " (λ id. drop_model id)
        (λ id. unload_model-missing m id s.show)
