-- ===== src/Graph/Building.antt =====
-- `GraphExecutor::build` (src/pipeline/GraphExecutor.cpp) makes a routed graph.
use inference_server.Shared.{
  ◌<◌, ◌≡◌, inl, inr, refl, true, Option, none, some, List, [], ◌∷◌, ◌++◌, String, arith, str_eq,
  eq_iff, if◌then◌else◌, is_some, lookup, insert, lookup-insert, All, All-append, Bool-cases,
  some_inj, none-ne-some,
}
use mathlib.Core.Path.{subst, subst₂}
use text.Mathlib.TextPositions.{eq_refl}
use inference_server.Shared.Int.{to_size}
use inference_server.Config.{EdgeConfig}
use inference_server.EdgeQueue.{EdgeQueue}
use inference_server.EdgeQueue
use inference_server.EdgeQueue.Bounds.{make-IsBounded}
use inference_server.Graph.{
  EventEnvelope, GraphExecutor, edge_key, push_back, add_edge, add_edges, build, has_stages,
}
use inference_server.Graph.Routing.{IsRouted, insert-IsRouted}

module _ {V : Type 0} where
  abbrev entries : Option (List V) → List V
  entries none = []
  entries (some vs) = vs

  lookup-push_back :
      (m : List (String × List V)) (k : String) (v : V) (j : String)
      → lookup (push_back m k v) j
        ≡ (if str_eq k j then some (entries (lookup m k) ++ v ∷ []) else lookup m j)
  unfolding push_back
  lookup-push_back m k v j =
      ground
        (arith, lookup-insert m k (v ∷ []) j, lookup-insert m k (entries (lookup m k) ++ v ∷ []) j)

  -- What holds of all that a map of lists holds, and of a new entry, holds after `push_back`.
  push_back-All :
      {Q : String → V → Type 0} (m : List (String × List V)) (k : String) (v : V)
      → ((j : String) (vs : List V) → lookup m j ≡ some vs → All (Q j) vs)
      → Q k v
      → (j : String) (vs : List V) → lookup (push_back m k v) j ≡ some vs
      → All (Q j) vs
  push_back-All {Q} m k v old new j vs h = elim (Bool-cases (str_eq k j)) [
    | inl e ↦
        let found : some (entries (lookup m k) ++ v ∷ []) ≡ some vs =
          rw e at (rw (lookup-push_back m k v j) at h) in
        subst₂ (λ i l. All (Q i) l) ((eq_iff k j).0 e) (some_inj found)
          (All-append (Q k) (entries (lookup m k)) (v ∷ []) (entries-All (lookup m k) refl)
            (new, tt))
    | inr e ↦ old j vs (rw e at (rw (lookup-push_back m k v j) at h))
  ]
    where
      entries-All : (o : Option (List V)) → lookup m k ≡ o → All (Q k) (entries o)
      entries-All none h = tt
      entries-All (some vs) h = old k vs h

module _ {P : Type 0} where
  add_edge-IsRouted :
      (g : GraphExecutor P) (e : EdgeConfig)
      → IsRouted g
      → 0 < to_size e.capacity
      → IsRouted (add_edge g e)
  unfolding add_edge
  add_edge-IsRouted g e r h = record {
    outgoing =
        push_back-All g.outgoing e.from e.to
          (λ from targets found. with_queue.outgoing from targets found) has_added;
    incoming =
        push_back-All g.incoming_edge_keys e.to key
          (λ id keys found. with_queue.incoming id keys found) has_added;
    bounded = with_queue.bounded;
  }
    where
      key : String
      key = edge_key e.from e.to

      queue : EdgeQueue (EventEnvelope P)
      queue = EdgeQueue.make e

      with_queue : IsRouted (record g { edges = insert g.edges key queue })
      with_queue = insert-IsRouted g key queue r (make-IsBounded e h)

      has_added : is_some (lookup (insert g.edges key queue) key) ≡ true
      has_added = rw (lookup-insert g.edges key queue key) (ground (arith, eq_refl key))

  add_edges-IsRouted :
      (g : GraphExecutor P) (es : List EdgeConfig)
      → IsRouted g
      → All (λ e. 0 < to_size e.capacity) es
      → IsRouted (add_edges g es)
  unfolding add_edges
  add_edges-IsRouted g [] r h = r
  add_edges-IsRouted g (e ∷ es) r h =
      add_edges-IsRouted (add_edge g e) es (add_edge-IsRouted g e r h.0) h.1

  -- The executor holds stages and nothing else yet.
  pub record IsFresh (g : GraphExecutor P) : Type 0 where
    pub outgoing : g.outgoing ≡ []
    pub incoming : g.incoming_edge_keys ≡ []
    pub edges : g.edges ≡ []

  IsFresh-IsRouted : (g : GraphExecutor P) → IsFresh g → IsRouted g
  unfolding lookup
  IsFresh-IsRouted g f = record {
    outgoing = λ from targets h. absurd (none-ne-some (rw f.outgoing at h));
    incoming = λ id keys h. absurd (none-ne-some (rw f.incoming at h));
    bounded = λ k q h. absurd (none-ne-some (rw f.edges at h));
  }

  -- Where every edge has a positive capacity, a build of a fresh executor that does not throw
  -- makes a routed graph.
  pub build-IsRouted :
      (g g' : GraphExecutor P)
      → IsFresh g
      → All (λ e. 0 < to_size e.capacity) g.cfg.edges
      → build g ≡ some g'
      → IsRouted g'
  unfolding build
  build-IsRouted g g' f h b = elim (Bool-cases (has_stages g g.cfg.nodes)) [
    | inl e ↦
        subst IsRouted (some_inj (rw e at b))
          (add_edges-IsRouted g g.cfg.edges (IsFresh-IsRouted g f) h)
    | inr e ↦ absurd (none-ne-some (rw e at b))
  ]
