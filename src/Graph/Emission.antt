-- ===== src/Graph/Emission.antt =====
-- The events of a routed graph (src/pipeline/GraphExecutor.cpp) are handed on without a missing
-- queue and without undefined behaviour, whatever the stages emit and the other threads do.
use inference_server.Shared.{
  ◌≡◌, refl, Bool, true, Option, none, some, List, [], ◌∷◌, String, is_some, lookup, insert, All,
  All-mono,
}
use inference_server.EdgeQueue.{EdgeQueue}
use inference_server.EdgeQueue
use inference_server.EdgeQueue.Bounds.{IsBounded, PushIsBounded, push-IsBounded}
use inference_server.Graph.{
  EventEnvelope, GraphExecutor, Outcome, done, out_of_range, undefined, ◌>>=◌, Environment,
  edge_key, keep_queue, push_to, push_edge, emit_all, emit_targets, emit_to_downstream, emit_events,
}
use inference_server.Graph.Routing.{has_queue, IsRouted, insert-IsRouted, has_queue-insert}

abbrev pub id {ℓ} : {A : Type ℓ} → A → A
id a = a

module _ {P : Type 0} where
  -- The graph that a call leaves: still routed, and with every queue that there was.
  pub record IsKept (g g' : GraphExecutor P) : Type 0 where
    pub routed : IsRouted g'
    pub queues : (k : String) → has_queue g k ≡ true → has_queue g' k ≡ true

  pub IsKept-refl : (g : GraphExecutor P) → IsRouted g → IsKept g g
  IsKept-refl g r = record { routed = r; queues = λ k h. h }

  IsKept-trans : {g g' g'' : GraphExecutor P} → IsKept g g' → IsKept g' g'' → IsKept g g''
  IsKept-trans a b = record { routed = b.routed; queues = λ k h. b.queues k (a.queues k h) }

  pub insert-IsKept :
      (g : GraphExecutor P) (k : String) (q : EdgeQueue (EventEnvelope P))
      → IsRouted g
      → IsBounded q
      → IsKept g (record g { edges = insert g.edges k q })
  insert-IsKept g k q r b = record {
    routed = insert-IsRouted g k q r b;
    queues = λ j h. has_queue-insert g k j q h;
  }

  -- The call ends normally and keeps the graph; `graph` is the graph in what it returns.
  abbrev pub Ends {ℓ} : {A : Type ℓ} → GraphExecutor P → (A → GraphExecutor P) → Outcome A → Type 0
  Ends g graph (done a) = IsKept g (graph a)
  Ends g graph out_of_range = ⊥
  Ends g graph undefined = ⊥

  pub Ends-widen {ℓ} :
      {A : Type ℓ} (g g' : GraphExecutor P) (graph : A → GraphExecutor P) (o : Outcome A)
      → IsKept g g'
      → Ends g' graph o
      → Ends g graph o
  Ends-widen g g' graph (done b) k e = IsKept-trans k e
  Ends-widen g g' graph out_of_range k e = e
  Ends-widen g g' graph undefined k e = e

  pub Ends->>= {ℓ κ} :
      {A : Type ℓ} {B : Type κ} (g : GraphExecutor P) (graph_a : A → GraphExecutor P)
      (graph_b : B → GraphExecutor P) (m : Outcome A) (f : A → Outcome B)
      → Ends g graph_a m
      → ((a : A) → IsKept g (graph_a a) → Ends (graph_a a) graph_b (f a))
      → Ends g graph_b (m >>= f)
  Ends->>= g graph_a graph_b (done a) f h k = Ends-widen g (graph_a a) graph_b (f a) h (k a h)
  Ends->>= g graph_a graph_b out_of_range f h k = h
  Ends->>= g graph_a graph_b undefined f h k = h

  keep_queue-Ends :
      (g : GraphExecutor P) (key : String) (r : Option (Bool × EdgeQueue (EventEnvelope P)))
      → IsRouted g
      → PushIsBounded r
      → Ends g id (keep_queue g key r)
  unfolding keep_queue
  keep_queue-Ends g key none r b = b
  keep_queue-Ends g key (some (_, q)) r b = insert-IsKept g key q r b

  push_to-Ends :
      (env : Environment P) (g : GraphExecutor P) (key : String) (event : EventEnvelope P)
      (o : Option (EdgeQueue (EventEnvelope P)))
      → IsRouted g
      → lookup g.edges key ≡ o
      → is_some o ≡ true
      → Ends g id (push_to env g key event o)
  unfolding push_to
  push_to-Ends env g key event none r found there = cc
  push_to-Ends env g key event (some q) r found there =
      keep_queue-Ends g key (EdgeQueue.push (env key) q event) r
        (push-IsBounded (env key) q event (r.bounded key q found))

  emit_all-Ends :
      (env : Environment P) (g : GraphExecutor P) (from : String) (event : EventEnvelope P)
      (targets : List String)
      → IsRouted g
      → All (λ to. has_queue g (edge_key from to) ≡ true) targets
      → Ends g id (emit_all env g from event targets)
  unfolding emit_all push_edge
  emit_all-Ends env g from event [] r h = IsKept-refl g r
  emit_all-Ends env g from event (to ∷ targets) r h =
      Ends->>= g id id (push_edge env g (edge_key from to) event)
        (λ g'. emit_all env g' from event targets)
        (push_to-Ends env g (edge_key from to) event _ r refl h.0)
        (λ g' k.
          emit_all-Ends env g' from event targets k.routed
            (All-mono _ _ targets (λ t. k.queues (edge_key from t)) h.1))

  emit_to_downstream-Ends :
      (env : Environment P) (g : GraphExecutor P) (from : String) (event : EventEnvelope P)
      → IsRouted g
      → Ends g id (emit_to_downstream env g from event)
  unfolding emit_to_downstream
  emit_to_downstream-Ends env g from event r = by_targets (lookup g.outgoing from) refl
    where
      by_targets :
          (o : Option (List String))
          → lookup g.outgoing from ≡ o
          → Ends g id (emit_targets env g from event o)
      by_targets none e = IsKept-refl g r
      by_targets (some targets) e =
          emit_all-Ends env g from event targets r (r.outgoing from targets e)

  pub emit_events-Ends :
      (env : Environment P) (g : GraphExecutor P) (from : String) (es : List (EventEnvelope P))
      → IsRouted g
      → Ends g id (emit_events env g from es)
  unfolding emit_events
  emit_events-Ends env g from [] r = IsKept-refl g r
  emit_events-Ends env g from (e ∷ es) r =
      Ends->>= g id id (emit_to_downstream env g from e) (λ g'. emit_events env g' from es)
        (emit_to_downstream-Ends env g from e r) (λ g' k. emit_events-Ends env g' from es k.routed)
