-- ===== src/TaskManager/Entries.antt =====
-- The methods of src/pipeline/TaskManager.cpp that start and stop tasks.
--
-- `start` and `stop` mark the entry while they hold the lock and run the executor's method after
-- it; each is given here in these two halves, and as the two in a row.
use inference_server.Shared.{
  Bool, true, false, String, List, [], ◌∷◌, Option, none, some, if◌then◌else◌, lookup, insert,
}
use inference_server.Config.{StageConfig, TaskConfig}
use inference_server.Graph.{GraphExecutor, Stage}
use inference_server.Graph
use inference_server.TaskManager.{
  TaskManager, Entry, State, stopped, running, Reply, returns, throws, Context, build_entry,
}

module _ {P : Type 0} where
  abbrev pub is_running : Entry P → Bool
  is_running e = elim e.state [ running ↦ true | stopped ↦ false ]

  abbrev pub put : TaskManager P → String → Entry P → TaskManager P
  put m id e = record m { entries = insert m.entries id e }

  -- The half of `start` under the lock: what it would return, the manager, and whether an executor
  -- is to be started.
  abbrev pub mark_running : TaskManager P → String → Entry P → State → Bool × TaskManager P × Bool
  mark_running m id e running = (true, m, false)
  mark_running m id e stopped = (true, put m id (record e { state = running }), true)

  abbrev pub mark_running_found :
      TaskManager P → String → Option (Entry P) → Bool × TaskManager P × Bool
  mark_running_found m id none = (false, m, false)
  mark_running_found m id (some e) = mark_running m id e e.state

  unfoldable pub start_mark : TaskManager P → String → Bool × TaskManager P × Bool
  start_mark m id = mark_running_found m id (lookup m.entries id)

  abbrev pub mark_stopped : TaskManager P → String → Entry P → State → Bool × TaskManager P × Bool
  mark_stopped m id e stopped = (true, m, false)
  mark_stopped m id e running = (true, put m id (record e { state = stopped }), true)

  abbrev pub mark_stopped_found :
      TaskManager P → String → Option (Entry P) → Bool × TaskManager P × Bool
  mark_stopped_found m id none = (false, m, false)
  mark_stopped_found m id (some e) = mark_stopped m id e e.state

  unfoldable pub stop_mark : TaskManager P → String → Bool × TaskManager P × Bool
  stop_mark m id = mark_stopped_found m id (lookup m.entries id)

  -- `executor->stop()`, on the executor of the entry.
  abbrev pub stop_found : TaskManager P → String → Option (Entry P) → TaskManager P
  stop_found m id none = m
  stop_found m id (some e) = put m id (record e { executor = (Graph.stop e.executor).0 })

  unfoldable pub stop_run : TaskManager P → String → TaskManager P
  stop_run m id = stop_found m id (lookup m.entries id)

  unfoldable pub stop : TaskManager P → String → Reply × TaskManager P
  unfolding stop_mark stop_run
  stop m id =
      let (known, m', runs) = stop_mark m id in (returns known, if runs then stop_run m' id else m')

  -- The entries after the loops of `loadAll` and `stopAll` over the executors of running tasks.
  abbrev pub stop_entry : Entry P → Entry P
  stop_entry e =
      if is_running e then record { executor = (Graph.stop e.executor).0; state = stopped } else e

  abbrev pub map_entries :
      (String → Entry P → Entry P) → List (String × Entry P) → List (String × Entry P)
  map_entries f [] = []
  map_entries f ((id, e) ∷ rest) = (id, f id e) ∷ map_entries f rest

  unfoldable pub stop_all : TaskManager P → TaskManager P
  stop_all m = record m { entries = map_entries (λ id e. stop_entry e) m.entries }

  module _ (fails : String → String → Bool) where
    -- `executor->start()`, and whether it throws.
    abbrev pub start_found : TaskManager P → String → Option (Entry P) → Bool × TaskManager P
    start_found m id none = (false, m)
    start_found m id (some e) =
        let (g, calls, threw) = Graph.start (fails id) e.executor in
        (threw, put m id (record e { executor = g }))

    unfoldable pub start_run : TaskManager P → String → Bool × TaskManager P
    start_run m id = start_found m id (lookup m.entries id)

    unfoldable pub start : TaskManager P → String → Reply × TaskManager P
    unfolding start_mark start_run
    start m id =
        let (known, m', runs) = start_mark m id in
        let (threw, m'') = start_run m' id in
        if runs then (if threw then throws else returns known, m'') else (returns known, m')

    -- `startAll` marks every stopped entry and then starts their executors one after the other;
    -- where one throws, the later ones are not started.
    unfoldable pub start_entries : List (String × Entry P) → List (String × Entry P) × Bool
    start_entries [] = ([], false)
    start_entries ((id, e) ∷ rest) =
        let (rest', threw') = start_entries rest in
        let (g, calls, threw) = Graph.start (fails id) e.executor in
        if is_running e
        then ((id, e) ∷ rest', threw')
        else if threw
        then (
          (id, record { executor = g; state = running })
              ∷ map_entries (λ id e. record e { state = running }) rest,
          true,
        )
        else ((id, record { executor = g; state = running }) ∷ rest', threw')

    -- The Boolean tells whether an exception left the method.
    unfoldable pub start_all : TaskManager P → TaskManager P × Bool
    unfolding start_entries
    start_all m =
        let (entries, threw) = start_entries m.entries in (record m { entries = entries }, threw)

  module _ (create : StageConfig → Context → Option Stage) (fails : String → String → Bool) where
    -- The loop of `loadAll` over the tasks, which ignores what `buildEntry` returns.
    abbrev pub build_next :
        Reply × TaskManager P → (TaskManager P → TaskManager P × Bool) → TaskManager P × Bool
    build_next (throws, m) rest = (m, true)
    build_next (returns b, m) rest = rest m

    unfoldable pub build_tasks : TaskManager P → List TaskConfig → TaskManager P × Bool
    build_tasks m [] = (m, false)
    build_tasks m (task ∷ tasks) =
        build_next (build_entry create fails m task false) (λ m'. build_tasks m' tasks)

    -- The executors are stopped and dropped with their entries, and every task is built anew.
    unfoldable pub load_all : TaskManager P → TaskManager P × Bool
    unfolding build_tasks
    load_all m = build_tasks (record m { entries = [] }) m.cfg.tasks
