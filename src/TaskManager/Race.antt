-- ===== src/TaskManager/Race.antt =====
-- `TaskManager::start` and `TaskManager::stop` of src/pipeline/TaskManager.cpp on two threads: each
-- marks the entry while it holds the lock and runs the executor's method after it.
use text.Mathlib.TextPositions.{eq_refl}
use inference_server.Shared.{
  ◌≡◌, refl, ap, ◌∙◌, Bool, true, false, String, some, arith, lookup, lookup-insert,
}
use inference_server.Graph.Running.{start-running}
use inference_server.Graph
use inference_server.TaskManager.{TaskManager, Entry, stopped, running}
use inference_server.TaskManager.Entries.{
  is_running, start_mark, start_run, stop_mark, stop_run, put, start_found, stop_found,
  mark_running, mark_stopped, mark_running_found, mark_stopped_found,
}

module _ {P : Type 0} (fails : String → String → Bool) where
  -- The second thread's `stop` runs between the halves of the first thread's `start`.
  unfoldable pub stop_within_start : TaskManager P → String → TaskManager P
  stop_within_start m id =
      let m1 = (start_mark m id).1 in
      let m2 = (stop_mark m1 id).1 in (start_run fails (stop_run m2 id) id).1

  lookup-put :
      (m : TaskManager P) (id : String) (e : Entry P) → lookup (put m id e).entries id ≡ some e
  lookup-put m id e = ground (arith, lookup-insert m.entries id e id, eq_refl id)

  found_after :
      {n : TaskManager P} (m : TaskManager P) (id : String) (e : Entry P)
      → n ≡ put m id e
      → lookup n.entries id ≡ some e
  found_after m id e h = ap (λ k. lookup k.entries id) h ∙ lookup-put m id e

  start_mark_lem :
      (m : TaskManager P) (id : String) (e : Entry P)
      → lookup m.entries id ≡ some e
      → e.state ≡ stopped
      → (start_mark m id).1 ≡ put m id (record e { state = running })
  unfolding start_mark
  start_mark_lem m id e there idle =
      ap (λ o. (mark_running_found m id o).1) there ∙ ap (λ s. (mark_running m id e s).1) idle

  stop_mark_lem :
      (m : TaskManager P) (id : String) (e : Entry P)
      → lookup m.entries id ≡ some e
      → e.state ≡ running
      → (stop_mark m id).1 ≡ put m id (record e { state = stopped })
  unfolding stop_mark
  stop_mark_lem m id e there busy =
      ap (λ o. (mark_stopped_found m id o).1) there ∙ ap (λ s. (mark_stopped m id e s).1) busy

  stop_run_lem :
      (m : TaskManager P) (id : String) (e : Entry P)
      → lookup m.entries id ≡ some e
      → stop_run m id ≡ put m id (record e { executor = (Graph.stop e.executor).0 })
  unfolding stop_run
  stop_run_lem m id e there = ap (stop_found m id) there

  start_run_lem :
      (m : TaskManager P) (id : String) (e : Entry P)
      → lookup m.entries id ≡ some e
      → (start_run fails m id).1
        ≡ put m id (record e { executor = (Graph.start (fails id) e.executor).0 })
  unfolding start_run
  start_run_lem m id e there = ap (λ o. (start_found fails m id o).1) there

  -- If the entry of a task is stopped, and a stop runs between the two halves of a start, then the
  -- entry is left marked as stopped with an executor that runs.
  pub stop_within_start_lem :
      (m : TaskManager P) (id : String) (e : Entry P)
      → lookup m.entries id ≡ some e
      → e.state ≡ stopped
      → (f : Entry P) × (lookup (stop_within_start m id).entries id ≡ some f)
        × (is_running f ≡ false)
        × (f.executor.running ≡ true)
  unfolding stop_within_start
  stop_within_start_lem m id e there idle =
      (f, found_after _ id f m4, refl, start-running (fails id) (Graph.stop e.executor).0)
    where
      f : Entry P
      f = record {
        executor = (Graph.start (fails id) (Graph.stop e.executor).0).0;
        state = stopped;
      }

      m1 : (start_mark m id).1 ≡ put m id (record e { state = running })
      m1 = start_mark_lem m id e there idle

      m2 :
          (stop_mark (start_mark m id).1 id).1
          ≡ put (start_mark m id).1 id (record e { state = stopped })
      m2 =
          stop_mark_lem (start_mark m id).1 id (record e { state = running })
            (found_after _ id _ m1) refl

      m3 :
          stop_run (stop_mark (start_mark m id).1 id).1 id
          ≡ put
              (stop_mark (start_mark m id).1 id).1
              id
              (record { executor = (Graph.stop e.executor).0; state = stopped })
      m3 =
          stop_run_lem (stop_mark (start_mark m id).1 id).1 id (record e { state = stopped })
            (found_after _ id _ m2)

      m4 :
          (start_run fails (stop_run (stop_mark (start_mark m id).1 id).1 id) id).1
          ≡ put (stop_run (stop_mark (start_mark m id).1 id).1 id) id f
      m4 =
          start_run_lem (stop_run (stop_mark (start_mark m id).1 id).1 id) id
            (record { executor = (Graph.stop e.executor).0; state = stopped })
            (found_after _ id _ m3)
