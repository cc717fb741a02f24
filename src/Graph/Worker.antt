-- ===== src/Graph/Worker.antt =====
-- `GraphExecutor::runNodeWorker` of src/pipeline/GraphExecutor.cpp: the thread of one node.
--
-- The parameter `process` is what the stages' `process` methods do: from the node, the state of the
-- stages and the event, the new state and the events handed to `emit`, in order.
use inference_server.Shared.{
  Bool, true, false, Option, none, some, List, [], ◌∷◌, String, if◌then◌else◌, lookup, insert,
  length,
}
use inference_server.EdgeQueue.{EdgeQueue}
use inference_server.EdgeQueue
use inference_server.Graph.{
  EventEnvelope, Stage, GraphExecutor, Outcome, done, out_of_range, ◌>>=◌, Environment, emit_events,
  empty_event,
}

module _ {P S : Type 0} (process : String → S → EventEnvelope P → S × List (EventEnvelope P)) where
  unfoldable pub handle :
      Environment P → GraphExecutor P → S → String → EventEnvelope P → Outcome (GraphExecutor P × S)
  handle env g s id event =
      emit_events env g id (process id s event).1 >>= λ g'. done (g', (process id s event).0)

  -- The popped event is marked with its edge and processed; the Boolean is `processed`.
  unfoldable pub deliver :
      Environment P
      → GraphExecutor P
      → S
      → Bool
      → String
      → String
      → Option (EventEnvelope P) × EdgeQueue (EventEnvelope P)
      → Outcome (GraphExecutor P × S × Bool)
  deliver env g s processed id key (none, q') =
      done (record g { edges = insert g.edges key q' }, s, processed)
  deliver env g s processed id key (some event, q') =
      handle env (record g { edges = insert g.edges key q' }) s id
        (record event { ingress_edge = some key; ingress_edge_queue_size = some (length q'.queue) })
      >>= λ (g', s'). done (g', s', true)

  unfoldable pub visit_edge :
      Environment P
      → GraphExecutor P
      → S
      → Bool
      → String
      → String
      → Option (EdgeQueue (EventEnvelope P))
      → Outcome (GraphExecutor P × S × Bool)
  visit_edge env g s processed id key none = out_of_range
  visit_edge env g s processed id key (some q) =
      deliver env g s processed id key (EdgeQueue.pop (env key) q)

  unfoldable pub visit_edges :
      Environment P
      → GraphExecutor P
      → S
      → Bool
      → String
      → List String
      → Outcome (GraphExecutor P × S × Bool)
  visit_edges env g s processed id [] = done (g, s, processed)
  visit_edges env g s processed id (key ∷ keys) =
      visit_edge env g s processed id key (lookup g.edges key) >>= λ (g', s', b).
      visit_edges env g' s' b id keys

  -- The visit of a node's incoming edges, if it has any.
  unfoldable pub visit_incoming :
      Environment P
      → GraphExecutor P
      → S
      → Bool
      → String
      → Option (List String)
      → Outcome (GraphExecutor P × S × Bool)
  visit_incoming env g s processed id none = done (g, s, processed)
  visit_incoming env g s processed id (some keys) = visit_edges env g s processed id keys

  -- `if (stage->isSource())`: a source is given an empty event.
  unfoldable pub source_tick :
      Environment P → GraphExecutor P → S → Stage → String → Outcome (GraphExecutor P × S × Bool)
  source_tick env g s stage id =
      if stage.is_source
      then (handle env g s id empty_event >>= λ (g', s'). done (g', s', true))
      else done (g, s, false)

  -- One round of the loop of `runNodeWorker`.
  unfoldable pub node_round :
      Environment P → GraphExecutor P → S → Stage → String → Outcome (GraphExecutor P × S × Bool)
  node_round env g s stage id = source_tick env g s stage id >>= λ (g', s', b).
      visit_incoming env g' s' b id (lookup g'.incoming_edge_keys id)

  -- The loop itself: each round sees another environment, and the loop ends at the round in which
  -- `running_` is read as false. Where the list ends, the observation ends.
  unfoldable pub run_rounds :
      List (Bool × Environment P)
      → GraphExecutor P
      → S
      → Stage
      → String
      → Outcome (GraphExecutor P × S)
  run_rounds [] g s stage id = done (g, s)
  run_rounds ((is_running, env) ∷ rest) g s stage id =
      let next = node_round env g s stage id >>= λ (g', s', b). run_rounds rest g' s' stage id in
      if is_running then next else done (g, s)

  unfoldable pub run_stage :
      List (Bool × Environment P)
      → GraphExecutor P
      → S
      → String
      → Option Stage
      → Outcome (GraphExecutor P × S)
  run_stage rounds g s id none = done (g, s)
  run_stage rounds g s id (some stage) = run_rounds rounds g s stage id

  unfoldable pub run_node_worker :
      List (Bool × Environment P) → GraphExecutor P → S → String → Outcome (GraphExecutor P × S)
  unfolding run_stage
  run_node_worker rounds g s id = run_stage rounds g s id (lookup g.stages id)
