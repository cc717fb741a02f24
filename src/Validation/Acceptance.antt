-- ===== src/Validation/Acceptance.antt =====
-- What a configuration that passes the checks of src/common/Config.cpp grants to the rest.
use inference_server.Shared.{◌≡◌, ◌<◌, true, String, List, [], ◌∷◌, some, arith, All, all}
use inference_server.Shared.Int.{ℤ, pos, negsuc, to_size}
use inference_server.Config.{EdgeConfig}
use inference_server.Graph.{GraphExecutor, build}
use inference_server.Graph.Building.{IsFresh, build-IsRouted}
use inference_server.Graph.Routing.{IsRouted}
use inference_server.Validation.{is_positive, check_edge, check_edges, node_ids}

is_positive-to_size : (n : ℤ) → is_positive n ≡ true → 0 < to_size n
is_positive-to_size (pos n) h = ground arith
is_positive-to_size (negsuc n) h = cc

check_edges-capacities :
    (ids : List String) (es : List EdgeConfig)
    → all (check_edge ids) es ≡ true
    → All (λ e. 0 < to_size e.capacity) es
unfolding check_edge
check_edges-capacities ids [] h = tt
check_edges-capacities ids (e ∷ es) h =
    (is_positive-to_size e.capacity (ground arith), check_edges-capacities ids es (ground arith))

module _ {P : Type 0} where
  -- An executor that was made for a pipeline whose edges pass the check is routed once build
  -- returns.
  pub check_edges-IsRouted :
      (g g' : GraphExecutor P)
      → IsFresh g
      → check_edges (node_ids g.cfg.nodes) g.cfg.edges ≡ true
      → build g ≡ some g'
      → IsRouted g'
  unfolding check_edges
  check_edges-IsRouted g g' fresh h b =
      build-IsRouted g g' fresh (check_edges-capacities (node_ids g.cfg.nodes) g.cfg.edges h) b
