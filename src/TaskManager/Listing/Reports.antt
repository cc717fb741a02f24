-- ===== src/TaskManager/Listing/Reports.antt =====
-- What `TaskManager::listTasks` of src/pipeline/TaskManager.cpp reports.
use mathlib.Core.Path.{subst}
use inference_server.Shared.{
  ◌≡◌, refl, ap, map, ◌∙◌, true, String, List, [], ◌∷◌, Option, none, some, str_eq, is_some, lookup,
  find_id, arith, All, All-mono, Bool-cases, inl, inr, eq_iff, some_inj, none-ne-some,
}
use inference_server.Config.{AppConfig, TaskConfig, task_key, find_task}
use inference_server.TaskManager.{TaskManager, Entry, State}
use inference_server.TaskManager.Integrity.{IsClosed, has_task}
use inference_server.TaskManager.Listing.{TaskRuntimeInfo, or_default, list_entries, list_tasks}

-- The look-up of an identifier finds an entry that has it.
find_id-key :
    {A : Type 0} (key : A → String) (xs : List A) (k : String) (x : A)
    → find_id key xs k ≡ some x
    → key x ≡ k
unfolding find_id
find_id-key key [] k x h = absurd (none-ne-some h)
find_id-key key (y ∷ ys) k x h = elim (Bool-cases (str_eq (key y) k)) [
  | inl e ↦ subst (λ z. key z ≡ k) (some_inj (rw e at h)) ((eq_iff (key y) k).0 e)
  | inr e ↦ find_id-key key ys k x (rw e at h)
]

-- The task that is listed under a known identifier.
pub or_default-find_task :
    (cfg : AppConfig) (id : String)
    → has_task cfg id ≡ true
    → ((or_default (find_task cfg id)).id ≡ id)
      × (find_task cfg (or_default (find_task cfg id)).id ≡ some (or_default (find_task cfg id)))
or_default-find_task cfg id known = found (find_task cfg id) refl known
  where
    found :
        (o : Option TaskConfig)
        → find_task cfg id ≡ o
        → is_some o ≡ true
        → ((or_default o).id ≡ id) × (find_task cfg (or_default o).id ≡ some (or_default o))
    found none eq there = cc
    found (some t) eq there =
        let same = find_id-key task_key cfg.tasks id t eq in (same, ap (find_task cfg) same ∙ eq)

-- What tells whose entry a report is about, and what it says of its state.
abbrev pub mark_of : TaskRuntimeInfo → String × State
mark_of info = (info.config.id, info.state)

module _ {P : Type 0} where
  abbrev pub entry_mark : String × Entry P → String × State
  entry_mark (id, e) = (id, e.state)

  -- Every key of a map is found.
  All-lookup : (es : List (String × Entry P)) → All (λ e. is_some (lookup es e.0) ≡ true) es
  unfolding lookup
  All-lookup [] = tt
  All-lookup ((id, e) ∷ es) =
      (ground (arith, (eq_iff id id).1 refl), All-mono _ _ es (λ d h. ground arith) (All-lookup es))

  list_entries-reports :
      (cfg : AppConfig) (es : List (String × Entry P))
      → All (λ e. has_task cfg e.0 ≡ true) es
      → (map mark_of (list_entries cfg es) ≡ map entry_mark es)
        × All (λ i. find_task cfg i.config.id ≡ some i.config) (list_entries cfg es)
  unfolding list_entries
  list_entries-reports cfg [] h = (refl, tt)
  list_entries-reports cfg ((id, e) ∷ es) h =
      let (same, configured) = or_default-find_task cfg id h.0 in
      let (marks, rest) = list_entries-reports cfg es h.1 in
      (
        ap (λ i. (i, e.state) ∷ map mark_of (list_entries cfg es)) same
            ∙ ap (◌∷◌ (id, e.state)) marks,
        (configured, rest),
      )

  pub entries-known :
      (m : TaskManager P) → IsClosed m → All (λ e. has_task m.cfg e.0 ≡ true) m.entries
  entries-known m c = All-mono _ _ m.entries (λ e h. c.entries e.0 h) (All-lookup m.entries)

  -- Where the configuration holds together, listTasks reports the entries one by one in their
  -- order, each under its own identifier and with its own state, and with the task that the
  -- configuration has under that identifier.
  pub list_tasks-find_task :
      (m : TaskManager P)
      → IsClosed m
      → (map mark_of (list_tasks m) ≡ map entry_mark m.entries)
        × All (λ i. find_task m.cfg i.config.id ≡ some i.config) (list_tasks m)
  unfolding list_tasks
  list_tasks-find_task m c = list_entries-reports m.cfg m.entries (entries-known m c)
