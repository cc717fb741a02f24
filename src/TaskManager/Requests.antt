-- ===== src/TaskManager/Requests.antt =====
-- The requests that change the manager of src/pipeline/TaskManager.cpp, and what they all keep.
use inference_server.Shared.{
  ◌≡◌, refl, sym, ◌∙◌, inl, inr, Bool, true, not, ◌||◌, String, List, [], ◌∷◌, Option, none, some,
  arith, lookup, lookup-insert, Bool-cases, str_eq, eq_iff, is_some, any,
}
use inference_server.Config.{
  StageConfig, PipelineSourceConfig, PipelineConfig, TaskConfig, ModelConfig, find_model,
}
use inference_server.Graph.{Stage}
use inference_server.TaskManager.{
  TaskManager, Entry, State, stopped, running, Reply, returns, Context,
}
use inference_server.TaskManager.Entries.{
  start, stop, stop_all, start_mark, start_run, stop_mark, stop_run, put, map_entries, start_found,
  stop_found, mark_running, mark_stopped, mark_running_found, mark_stopped_found,
}
use inference_server.TaskManager.Tasks.{add_task, update_task, remove_task, update_pipeline}
use inference_server.TaskManager.Mutations.{
  add_source, remove_source, add_pipeline, remove_pipeline, load_model, unload_model, uses_model,
  load_from_repository, load_scanned, load_found,
}
use inference_server.TaskManager.Integrity.{
  IsClosed, add_source-IsClosed, remove_source-IsClosed, add_pipeline-IsClosed,
  remove_pipeline-IsClosed, remove_task-IsClosed,
}
use inference_server.TaskManager.Upkeep.{add_task-IsClosed, update_task-IsClosed}
use inference_server.TaskManager.Rebuild.{update_pipeline-IsClosed}

pub data Request : Type 0 where
  start_task stop_task take_task drop_source drop_pipeline drop_model load_repository :
      String → Request
  put_source : PipelineSourceConfig → Request
  put_pipeline change_pipeline : PipelineConfig → Request
  put_task : TaskConfig → Bool → Request
  change_task : TaskConfig → Request
  put_model : ModelConfig → Request
  stop_tasks : Request

module _ {P : Type 0} where
  module _ (create : StageConfig → Context → Option Stage) (fails : String → String → Bool)
      (repo : String → Option (List ModelConfig)) where
    -- The method that a request calls.
    unfoldable pub serve : TaskManager P → Request → Reply × TaskManager P
    serve m (start_task id) = start fails m id
    serve m (stop_task id) = stop m id
    serve m (take_task id) = remove_task m id
    serve m (drop_source id) = remove_source m id
    serve m (drop_pipeline id) = remove_pipeline m id
    serve m (drop_model id) = unload_model m id
    serve m (load_repository id) = load_from_repository repo m id
    serve m (put_source src) = add_source m src
    serve m (put_pipeline p) = add_pipeline m p
    serve m (change_pipeline p) = update_pipeline create fails m p
    serve m (put_task t autostart) = add_task create fails m t autostart
    serve m (change_task t) = update_task create fails m t
    serve m (put_model model) = load_model m model
    serve m stop_tasks = (returns true, stop_all m)

    -- The manager after a sequence of requests, whatever they return.
    unfoldable pub serve_all : TaskManager P → List Request → TaskManager P
    serve_all m [] = m
    serve_all m (r ∷ rs) = serve_all (serve m r).1 rs

  load_model-IsClosed :
      (m : TaskManager P) (model : ModelConfig) → IsClosed m → IsClosed (load_model m model).1
  unfolding load_model
  load_model-IsClosed m model c = elim (Bool-cases (is_some (find_model m.cfg model.id))) [
    | inl e ↦ simp e c
    | inr e ↦ simp e (record { tasks = c.tasks; entries = c.entries })
  ]

  unload_model-IsClosed :
      (m : TaskManager P) (id : String) → IsClosed m → IsClosed (unload_model m id).1
  unfolding unload_model
  unload_model-IsClosed m id c =
      elim (Bool-cases
        (not (is_some (find_model m.cfg id)) || any (uses_model m.cfg id) m.entries)) [
          | inl e ↦ simp e c
          | inr e ↦ simp e (record { tasks = c.tasks; entries = c.entries })
        ]

  load_found-IsClosed :
      (m : TaskManager P) (o : Option ModelConfig) → IsClosed m → IsClosed (load_found m o).1
  load_found-IsClosed m none c = c
  load_found-IsClosed m (some model) c = load_model-IsClosed m model c

  load_scanned-IsClosed :
      (m : TaskManager P) (id : String) (o : Option (List ModelConfig))
      → IsClosed m
      → IsClosed (load_scanned m id o).1
  load_scanned-IsClosed m id none c = c
  load_scanned-IsClosed m id (some models) c = load_found-IsClosed m _ c

  load_from_repository-IsClosed :
      (repo : String → Option (List ModelConfig)) (m : TaskManager P) (id : String)
      → IsClosed m
      → IsClosed (load_from_repository repo m id).1
  unfolding load_from_repository
  load_from_repository-IsClosed repo m id c = elim (Bool-cases (str_eq m.cfg.model_repository "")) [
    | inl e ↦ simp e c
    | inr e ↦ simp e (load_scanned-IsClosed m id _ c)
  ]

  -- An entry that is there is written again.
  put-IsClosed :
      (m : TaskManager P) (id : String) (e f : Entry P)
      → lookup m.entries id ≡ some f
      → IsClosed m
      → IsClosed (put m id e)
  put-IsClosed m id e f there c = record {
    tasks = c.tasks;
    entries = λ j h.
        ground (arith, lookup-insert m.entries id e j, c.entries j, c.entries id, eq_iff id j);
  }

  stop_found-IsClosed :
      (m : TaskManager P) (id : String) (o : Option (Entry P))
      → lookup m.entries id ≡ o
      → IsClosed m
      → IsClosed (stop_found m id o)
  stop_found-IsClosed m id none there c = c
  stop_found-IsClosed m id (some e) there c = put-IsClosed m id _ e there c

  stop_run-IsClosed : (m : TaskManager P) (id : String) → IsClosed m → IsClosed (stop_run m id)
  unfolding stop_run
  stop_run-IsClosed m id c = stop_found-IsClosed m id _ refl c

  mark_stopped-IsClosed :
      (m : TaskManager P) (id : String) (e : Entry P) (s : State)
      → lookup m.entries id ≡ some e
      → IsClosed m
      → IsClosed (mark_stopped m id e s).1
  mark_stopped-IsClosed m id e stopped there c = c
  mark_stopped-IsClosed m id e running there c = put-IsClosed m id _ e there c

  stop_mark-IsClosed :
      (m : TaskManager P) (id : String) (o : Option (Entry P))
      → lookup m.entries id ≡ o
      → IsClosed m
      → IsClosed (mark_stopped_found m id o).1
  stop_mark-IsClosed m id none there c = c
  stop_mark-IsClosed m id (some e) there c = mark_stopped-IsClosed m id e e.state there c

  stop-IsClosed : (m : TaskManager P) (id : String) → IsClosed m → IsClosed (stop m id).1
  unfolding stop stop_mark
  stop-IsClosed m id c = elim (Bool-cases (stop_mark m id).2) [
    | inl e ↦ rw e (stop_run-IsClosed (stop_mark m id).1 id (stop_mark-IsClosed m id _ refl c))
    | inr e ↦ rw e (stop_mark-IsClosed m id _ refl c)
  ]

  mark_running-IsClosed :
      (m : TaskManager P) (id : String) (e : Entry P) (s : State)
      → lookup m.entries id ≡ some e
      → IsClosed m
      → IsClosed (mark_running m id e s).1
  mark_running-IsClosed m id e running there c = c
  mark_running-IsClosed m id e stopped there c = put-IsClosed m id _ e there c

  start_mark-IsClosed :
      (m : TaskManager P) (id : String) (o : Option (Entry P))
      → lookup m.entries id ≡ o
      → IsClosed m
      → IsClosed (mark_running_found m id o).1
  start_mark-IsClosed m id none there c = c
  start_mark-IsClosed m id (some e) there c = mark_running-IsClosed m id e e.state there c

  start_found-IsClosed :
      (fails : String → String → Bool) (m : TaskManager P) (id : String) (o : Option (Entry P))
      → lookup m.entries id ≡ o
      → IsClosed m
      → IsClosed (start_found fails m id o).1
  start_found-IsClosed fails m id none there c = c
  start_found-IsClosed fails m id (some e) there c = put-IsClosed m id _ e there c

  start-IsClosed :
      (fails : String → String → Bool) (m : TaskManager P) (id : String)
      → IsClosed m
      → IsClosed (start fails m id).1
  unfolding start start_mark start_run
  start-IsClosed fails m id c = elim (Bool-cases (start_mark m id).2) [
    | inl e ↦ rw e (
        start_found-IsClosed fails (start_mark m id).1 id _ refl
          (start_mark-IsClosed m id _ refl c))
    | inr e ↦ rw e (start_mark-IsClosed m id _ refl c)
  ]

  -- The identifiers of the entries after a loop that changes entries in place.
  lookup-map_entries :
      (f : String → Entry P → Entry P) (es : List (String × Entry P)) (id : String)
      → is_some (lookup (map_entries f es) id) ≡ is_some (lookup es id)
  unfolding lookup
  lookup-map_entries f [] id = refl
  lookup-map_entries f ((j, e) ∷ es) id = ground (arith, lookup-map_entries f es id)

  stop_all-IsClosed : (m : TaskManager P) → IsClosed m → IsClosed (stop_all m)
  unfolding stop_all
  stop_all-IsClosed m c = record {
    tasks = c.tasks;
    entries = λ id h. c.entries id (sym (lookup-map_entries _ m.entries id) ∙ h);
  }

  module _ (create : StageConfig → Context → Option Stage) (fails : String → String → Bool)
      (repo : String → Option (List ModelConfig)) where
    pub serve-IsClosed :
        (m : TaskManager P) (r : Request) → IsClosed m → IsClosed (serve create fails repo m r).1
    unfolding serve
    serve-IsClosed m (start_task id) c = start-IsClosed fails m id c
    serve-IsClosed m (stop_task id) c = stop-IsClosed m id c
    serve-IsClosed m (take_task id) c = remove_task-IsClosed m id c
    serve-IsClosed m (drop_source id) c = remove_source-IsClosed m id c
    serve-IsClosed m (drop_pipeline id) c = remove_pipeline-IsClosed m id c
    serve-IsClosed m (drop_model id) c = unload_model-IsClosed m id c
    serve-IsClosed m (load_repository id) c = load_from_repository-IsClosed repo m id c
    serve-IsClosed m (put_source src) c = add_source-IsClosed m src c
    serve-IsClosed m (put_pipeline p) c = add_pipeline-IsClosed m p c
    serve-IsClosed m (change_pipeline p) c = update_pipeline-IsClosed create fails m p c
    serve-IsClosed m (put_task t autostart) c = add_task-IsClosed create fails m t autostart c
    serve-IsClosed m (change_task t) c = update_task-IsClosed create fails m t c
    serve-IsClosed m (put_model model) c = load_model-IsClosed m model c
    serve-IsClosed m stop_tasks c = stop_all-IsClosed m c

    -- After any sequence of requests to the task manager (its own start-up methods loadAll and
    -- startAll apart), whatever they return and wherever an exception leaves them, every task of
    -- the configuration has its source and its pipeline and every entry has its task, if that was
    -- so before.
    pub serve_all-IsClosed :
        (m : TaskManager P) (rs : List Request)
        → IsClosed m
        → IsClosed (serve_all create fails repo m rs)
    unfolding serve_all
    serve_all-IsClosed m [] c = c
    serve_all-IsClosed m (r ∷ rs) c =
        serve_all-IsClosed (serve create fails repo m r).1 rs (serve-IsClosed m r c)
