-- ===== src/Server/Missing.antt =====
-- Requests about an entry that a listing of src/pipeline/TaskManager.cpp does not have, which
-- src/server/UnixSocketServer.cpp refuses before the call.
use inference_server.Shared.{
  ◌≡◌, refl, Bool, true, false, not, String, List, [], ◌∷◌, Option, none, some, str_eq, any, map,
  is_some, lookup, find_id, arith, All,
}
use inference_server.Shared.Int.{ℤ}
use inference_server.Config.{
  AppConfig, StageConfig, PipelineConfig, source_key, pipeline_key, model_key,
}
use inference_server.Graph.{Stage}
use inference_server.Stream.Health.{StreamHealth}
use inference_server.TaskManager.{TaskManager, Entry, returns, Context}
use inference_server.TaskManager.Integrity.{IsClosed, has_task}
use inference_server.TaskManager.Mutations.{remove_source, remove_pipeline, unload_model}
use inference_server.TaskManager.Tasks.{remove_task, update_pipeline, update_found}
use inference_server.TaskManager.Listing.{
  source_info, pipeline_info, model_info, list_entries, list_tasks, list_sources, list_pipelines,
  list_models,
}
use inference_server.TaskManager.Listing.Reports.{or_default-find_task, entries-known}

-- A list of reports has the identifiers of the list that it is made from.
any-find_id :
    {A B : Type 0} (key : A → String) (report : A → B) (name : B → String) (xs : List A)
    (id : String)
    → ((a : A) → name (report a) ≡ key a)
    → any (λ b. str_eq (name b) id) (map report xs) ≡ is_some (find_id key xs id)
unfolding find_id
any-find_id key report name [] id same = refl
any-find_id key report name (x ∷ xs) id same =
    ground (arith, any-find_id key report name xs id same, same x)

module _ {P : Type 0} (m : TaskManager P) (id : String) where
  pub remove_source-missing :
      {T : Type 0} (health : String → StreamHealth T)
      → not (any (λ x. str_eq x.id id) (list_sources health m)) ≡ true
      → remove_source m id ≡ (returns false, m)
  unfolding remove_source list_sources
  remove_source-missing health h = ground (
    arith,
    h,
    any-find_id source_key (source_info health) (λ x. x.id) m.cfg.sources id (λ a. refl),
  )

  pub remove_pipeline-missing :
      not (any (λ x. str_eq x.id id) (list_pipelines m)) ≡ true
      → remove_pipeline m id ≡ (returns false, m)
  unfolding remove_pipeline list_pipelines
  remove_pipeline-missing h =
      ground (
        arith,
        h,
        any-find_id pipeline_key pipeline_info (λ x. x.id) m.cfg.pipelines id (λ a. refl),
      )

  pub unload_model-missing :
      (show : ℤ → String)
      → not (any (λ x. str_eq x.id id) (list_models show m)) ≡ true
      → unload_model m id ≡ (returns false, m)
  unfolding unload_model list_models
  unload_model-missing show h =
      ground
        (arith, h, any-find_id model_key (model_info show) (λ x. x.id) m.cfg.models id (λ a. refl))

  any-list_entries :
      (cfg : AppConfig) (es : List (String × Entry P))
      → All (λ e. has_task cfg e.0 ≡ true) es
      → any (λ x. str_eq x.config.id id) (list_entries cfg es) ≡ is_some (lookup es id)
  unfolding list_entries lookup
  any-list_entries cfg [] known = refl
  any-list_entries cfg ((j, e) ∷ es) known =
      ground (arith, (or_default-find_task cfg j known.0).0, any-list_entries cfg es known.1)

  pub remove_task-missing :
      IsClosed m
      → not (any (λ x. str_eq x.config.id id) (list_tasks m)) ≡ true
      → remove_task m id ≡ (returns false, m)
  unfolding remove_task list_tasks
  remove_task-missing c h = ground (arith, h, any-list_entries m.cfg m.entries (entries-known m c))

  module _ (create : StageConfig → Context → Option Stage) (fails : String → String → Bool) where
    not_found :
        (p : PipelineConfig) (o : Option PipelineConfig)
        → is_some o ≡ false
        → update_found create fails m p o ≡ (returns false, m)
    not_found p none h = refl
    not_found p (some q) h = cc

    -- An update goes to the pipeline that it is about.
    pub update_pipeline-missing :
        (p : PipelineConfig)
        → p.id ≡ id
        → not (any (λ x. str_eq x.id id) (list_pipelines m)) ≡ true
        → update_pipeline create fails m p ≡ (returns false, m)
    unfolding update_pipeline list_pipelines
    update_pipeline-missing p same h = not_found p _ (
        ground (
          arith,
          h,
          same,
          any-find_id pipeline_key pipeline_info (λ x. x.id) m.cfg.pipelines id (λ a. refl),
        ))
