-- ===== src/Graph/Samples.antt =====
-- Runs of the executor of src/pipeline/GraphExecutor.cpp on the pipeline of the deployment.
use inference_server.Shared.{
  ◌≡◌, refl, Bool, true, false, String, List, [], ◌∷◌, none, some, map, arith, All, str_eq, lookup,
}
use inference_server.Deployment.{pipeline, staged}
use inference_server.Graph.{
  GraphExecutor, EventEnvelope, add_edges, add_edge, has_stages, build, start, stop, Environment,
}
use inference_server.Graph.Building.{IsFresh, build-IsRouted}
use inference_server.Graph.Routing.{IsRouted}
use inference_server.Graph.Emission.{Ends}
use inference_server.Graph.Rounds.{with_state, run_node_worker-Ends}
use inference_server.Graph.Worker.{run_node_worker}
use inference_server.Graph.Calls.{replay}
use inference_server.Graph.Lifecycle.{
  Command, starts, stops, obey_all, replay-obey_all, IsSettled, make-IsSettled, start-stop_lem,
}

abbrev built : GraphExecutor String
built = add_edges staged pipeline.edges

abbrev never : String → Bool
never id = false

abbrev event : EventEnvelope String
event = record {
  event_id = "e";
  stream_id = "front";
  frame_seq = 1;
  source_queue_size = none;
  ingress_edge = none;
  ingress_edge_queue_size = none;
  received_at_infer_ns = 0;
  payload = some "frame";
}

-- Every node emits one event each time.
abbrev process : String → Bool → EventEnvelope String → Bool × List (EventEnvelope String)
process id s e = (s, event ∷ [])

abbrev quiet : Environment String
quiet key = []

staged-IsFresh : IsFresh staged
staged-IsFresh = record { outgoing = refl; incoming = refl; edges = refl }

staged-build : build staged ≡ some built
unfolding build has_stages lookup
staged-build = refl

build-IsRouted_example : IsRouted built
build-IsRouted_example = build-IsRouted staged built staged-IsFresh (omega arith, tt) staged-build

run_node_worker-Ends_example :
    Ends built with_state (
      run_node_worker process ((true, quiet) ∷ (true, quiet) ∷ (false, quiet) ∷ []) built true "in")
run_node_worker-Ends_example =
    run_node_worker-Ends process ((true, quiet) ∷ (true, quiet) ∷ (false, quiet) ∷ []) built true
      "in" build-IsRouted_example

abbrev commands : List Command
commands = starts (λ id. str_eq id "out") ∷ stops ∷ starts never ∷ stops ∷ []

replay-obey_all_example :
    replay built.worker_threads (obey_all built commands).1
    ≡ some (obey_all built commands).0.worker_threads
replay-obey_all_example = replay-obey_all built commands

built-IsSettled : IsSettled built
unfolding add_edges add_edge
built-IsSettled = make-IsSettled built refl refl

start-stop_lem_example :
    let on = (start never built).0 in
    let off = (stop on).0 in
    ((start never built).2 ≡ false)
    × (on.running ≡ true)
    × (on.worker_threads ≡ map (λ e. e.0) built.stages)
    × All (λ e. e.1.stopped ≡ false) on.edges
    × (off.running ≡ false)
    × (off.worker_threads ≡ [])
    × All (λ e. e.1.stopped ≡ true) off.edges
unfolding add_edges add_edge
start-stop_lem_example = start-stop_lem never built built-IsSettled (refl, (refl, tt)) refl
