-- ===== src/Graph/Rounds.antt =====
-- The worker of a node (`runNodeWorker`, src/pipeline/GraphExecutor.cpp) on a routed graph.
use inference_server.Shared.{
  ◌≡◌, inl, inr, refl, Bool, true, Option, none, some, List, [], ◌∷◌, String, is_some, lookup,
  insert, All, All-mono, Bool-cases,
}
use inference_server.EdgeQueue.{EdgeQueue}
use inference_server.EdgeQueue
use inference_server.EdgeQueue.Bounds.{IsBounded, pop-IsBounded}
use inference_server.Graph.{
  EventEnvelope, Stage, GraphExecutor, done, ◌>>=◌, Environment, emit_events, empty_event,
}
use inference_server.Graph.Routing.{has_queue, IsRouted}
use inference_server.Graph.Emission.{
  id, Ends, Ends-widen, Ends->>=, IsKept-refl, insert-IsKept, emit_events-Ends,
}
use inference_server.Graph.Worker.{
  handle, deliver, visit_edge, visit_edges, visit_incoming, source_tick, node_round, run_rounds,
  run_stage, run_node_worker,
}

module _ {P S : Type 0} where
  abbrev pub with_state : GraphExecutor P × S → GraphExecutor P
  with_state r = r.0

  abbrev with_flag : GraphExecutor P × S × Bool → GraphExecutor P
  with_flag r = r.0

module _ {P S : Type 0} (process : String → S → EventEnvelope P → S × List (EventEnvelope P)) where
  handle-Ends :
      (env : Environment P) (g : GraphExecutor P) (s : S) (node : String) (event : EventEnvelope P)
      → IsRouted g
      → Ends g with_state (handle process env g s node event)
  unfolding handle
  handle-Ends env g s node event r =
      Ends->>= g id with_state (emit_events env g node (process node s event).1)
        (λ g'. done (g', (process node s event).0))
        (emit_events-Ends env g node (process node s event).1 r) (λ g' k. IsKept-refl g' k.routed)

  -- The same with the flag `processed`, which the callers of `handle` set.
  handle_flagged-Ends :
      (env : Environment P) (g : GraphExecutor P) (s : S) (node : String) (event : EventEnvelope P)
      → IsRouted g
      → Ends g with_flag (handle process env g s node event >>= λ (g', s'). done (g', s', true))
  handle_flagged-Ends env g s node event r =
      Ends->>= g with_state with_flag (handle process env g s node event)
        (λ (g', s'). done (g', s', true)) (handle-Ends env g s node event r)
        (λ a k. IsKept-refl a.0 k.routed)

  deliver-Ends :
      (env : Environment P) (g : GraphExecutor P) (s : S) (b : Bool) (node key : String)
      (popped : Option (EventEnvelope P) × EdgeQueue (EventEnvelope P))
      → IsRouted g
      → IsBounded popped.1
      → Ends g with_flag (deliver process env g s b node key popped)
  unfolding deliver
  deliver-Ends env g s b node key (none, q) r v = insert-IsKept g key q r v
  deliver-Ends env g s b node key (some event, q) r v =
      let kept = insert-IsKept g key q r v in
      Ends-widen g (record g { edges = insert g.edges key q }) with_flag _ kept
        (handle_flagged-Ends env _ s node _ kept.routed)

  visit_edge-Ends :
      (env : Environment P) (g : GraphExecutor P) (s : S) (b : Bool) (node key : String)
      (o : Option (EdgeQueue (EventEnvelope P)))
      → IsRouted g
      → lookup g.edges key ≡ o
      → is_some o ≡ true
      → Ends g with_flag (visit_edge process env g s b node key o)
  unfolding visit_edge
  visit_edge-Ends env g s b node key none r found there = cc
  visit_edge-Ends env g s b node key (some q) r found there =
      deliver-Ends env g s b node key (EdgeQueue.pop (env key) q) r
        (pop-IsBounded (env key) q (r.bounded key q found))

  visit_edges-Ends :
      (env : Environment P) (g : GraphExecutor P) (s : S) (b : Bool) (node : String)
      (keys : List String)
      → IsRouted g
      → All (λ k. has_queue g k ≡ true) keys
      → Ends g with_flag (visit_edges process env g s b node keys)
  unfolding visit_edges
  visit_edges-Ends env g s b node [] r h = IsKept-refl g r
  visit_edges-Ends env g s b node (key ∷ keys) r h =
      Ends->>= g with_flag with_flag (visit_edge process env g s b node key (lookup g.edges key))
        (λ (g', s', c). visit_edges process env g' s' c node keys)
        (visit_edge-Ends env g s b node key _ r refl h.0)
        (λ a k.
          visit_edges-Ends env a.0 a.1 a.2 node keys k.routed (All-mono _ _ keys k.queues h.1))

  visit_incoming-Ends :
      (env : Environment P) (g : GraphExecutor P) (s : S) (b : Bool) (node : String)
      (o : Option (List String))
      → IsRouted g
      → lookup g.incoming_edge_keys node ≡ o
      → Ends g with_flag (visit_incoming process env g s b node o)
  unfolding visit_incoming
  visit_incoming-Ends env g s b node none r e = IsKept-refl g r
  visit_incoming-Ends env g s b node (some keys) r e =
      visit_edges-Ends env g s b node keys r (r.incoming node keys e)

  source_tick-Ends :
      (env : Environment P) (g : GraphExecutor P) (s : S) (stage : Stage) (node : String)
      → IsRouted g
      → Ends g with_flag (source_tick process env g s stage node)
  unfolding source_tick
  source_tick-Ends env g s stage node r = elim (Bool-cases stage.is_source) [
    | inl e ↦ rw e (handle_flagged-Ends env g s node empty_event r)
    | inr e ↦ rw e (IsKept-refl g r)
  ]

  node_round-Ends :
      (env : Environment P) (g : GraphExecutor P) (s : S) (stage : Stage) (node : String)
      → IsRouted g
      → Ends g with_flag (node_round process env g s stage node)
  unfolding node_round
  node_round-Ends env g s stage node r =
      Ends->>= g with_flag with_flag (source_tick process env g s stage node)
        (λ (g', s', b). visit_incoming process env g' s' b node (lookup g'.incoming_edge_keys node))
        (source_tick-Ends env g s stage node r)
        (λ a k. visit_incoming-Ends env a.0 a.1 a.2 node _ k.routed refl)

  run_rounds-Ends :
      (rounds : List (Bool × Environment P)) (g : GraphExecutor P) (s : S) (stage : Stage)
      (node : String)
      → IsRouted g
      → Ends g with_state (run_rounds process rounds g s stage node)
  unfolding run_rounds
  run_rounds-Ends [] g s stage node r = IsKept-refl g r
  run_rounds-Ends ((is_running, env) ∷ rest) g s stage node r = elim (Bool-cases is_running) [
    | inr e ↦ rw e (IsKept-refl g r)
    | inl e ↦ rw e (
        Ends->>= g with_flag with_state (node_round process env g s stage node)
          (λ (g', s', b). run_rounds process rest g' s' stage node)
          (node_round-Ends env g s stage node r)
          (λ a k. run_rounds-Ends rest a.0 a.1 stage node k.routed))
  ]

  -- On a routed graph a node's worker never asks for a missing queue and never meets undefined
  -- behaviour, however many rounds it runs, whatever its stage emits and whatever the other
  -- threads do to the queues while it waits; it leaves the graph routed, with all its queues.
  pub run_node_worker-Ends :
      (rounds : List (Bool × Environment P)) (g : GraphExecutor P) (s : S) (node : String)
      → IsRouted g
      → Ends g with_state (run_node_worker process rounds g s node)
  unfolding run_node_worker run_stage
  run_node_worker-Ends rounds g s node r = by_stage (lookup g.stages node)
    where
      by_stage : (o : Option Stage) → Ends g with_state (run_stage process rounds g s node o)
      by_stage none = IsKept-refl g r
      by_stage (some stage) = run_rounds-Ends rounds g s stage node r
