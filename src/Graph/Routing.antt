-- ===== src/Graph/Routing.antt =====
-- Events reach queues that exist: the maps that `GraphExecutor::build` fills
-- (src/pipeline/GraphExecutor.cpp) fit together, so `edges_.at` finds every queue it is asked for.
use inference_server.Shared.{
  ◌≡◌, inl, inr, Bool, true, some, List, String, arith, str_eq, if◌then◌else◌, is_some, lookup,
  insert, lookup-insert, All, All-mono, Bool-cases,
}
use inference_server.EdgeQueue.{EdgeQueue}
use inference_server.EdgeQueue.Bounds.{IsBounded}
use inference_server.Graph.{EventEnvelope, GraphExecutor, edge_key}

module _ {P : Type 0} where
  abbrev pub has_queue : GraphExecutor P → String → Bool
  has_queue g k = is_some (lookup g.edges k)

  -- Every edge that the maps name has a queue, and every queue keeps its bound.
  pub record IsRouted (g : GraphExecutor P) : Type 0 where
    pub outgoing :
        (from : String) (targets : List String)
        → lookup g.outgoing from ≡ some targets
        → All (λ to. has_queue g (edge_key from to) ≡ true) targets
    pub incoming :
        (id : String) (keys : List String)
        → lookup g.incoming_edge_keys id ≡ some keys
        → All (λ k. has_queue g k ≡ true) keys
    pub bounded :
        (k : String) (q : EdgeQueue (EventEnvelope P)) → lookup g.edges k ≡ some q → IsBounded q

  pub has_queue-insert :
      (g : GraphExecutor P) (k j : String) (q : EdgeQueue (EventEnvelope P))
      → has_queue g j ≡ true
      → is_some (lookup (insert g.edges k q) j) ≡ true
  has_queue-insert g k j q h = rw (lookup-insert g.edges k q j) (ground arith)

  -- A new or changed queue that keeps its bound.
  pub insert-IsRouted :
      (g : GraphExecutor P) (k : String) (q : EdgeQueue (EventEnvelope P))
      → IsRouted g
      → IsBounded q
      → IsRouted (record g { edges = insert g.edges k q })
  insert-IsRouted g k q r b = record {
    outgoing = λ from targets h.
        All-mono _ _ targets (λ to. has_queue-insert g k (edge_key from to) q)
          (r.outgoing from targets h);
    incoming =
        λ id keys h. All-mono _ _ keys (λ j. has_queue-insert g k j q) (r.incoming id keys h);
    bounded = λ j p h. bounded_at j p (rw (lookup-insert g.edges k q j) at h);
  }
    where
      bounded_at :
          (j : String) (p : EdgeQueue (EventEnvelope P))
          → (if str_eq k j then some q else lookup g.edges j) ≡ some p
          → IsBounded p
      bounded_at j p h = elim (Bool-cases (str_eq k j)) [
        | inl e ↦ ground (arith)
        | inr e ↦ r.bounded j p (rw e at h)
      ]
