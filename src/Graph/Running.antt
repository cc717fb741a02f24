-- ===== src/Graph/Running.antt =====
-- The flag `running_` of `GraphExecutor` (src/pipeline/GraphExecutor.cpp) through its methods.
use inference_server.Shared.{
  ◌≡◌, refl, sym, ap, ◌∙◌, Bool, true, false, some, List, [], ◌∷◌, String, arith, inl, inr,
  Bool-cases, some_inj, none-ne-some,
}
use inference_server.Config.{EdgeConfig}
use inference_server.Graph.{
  GraphExecutor, Stage, start, stop, build, add_stage, add_edge, add_edges, has_stages,
}

module _ {P : Type 0} where
  pub start-running :
      (throws : String → Bool) (g : GraphExecutor P) → (start throws g).0.running ≡ true
  unfolding start
  start-running throws g = ground arith

  pub stop-running : (g : GraphExecutor P) → (stop g).0.running ≡ false
  unfolding stop
  stop-running g = ground arith

  pub add_stage-running : (g : GraphExecutor P) (s : Stage) → (add_stage g s).running ≡ g.running
  unfolding add_stage
  add_stage-running g s = refl

  add_edges-running :
      (g : GraphExecutor P) (es : List EdgeConfig) → (add_edges g es).running ≡ g.running
  unfolding add_edges add_edge
  add_edges-running g [] = refl
  add_edges-running g (e ∷ es) = add_edges-running (add_edge g e) es

  pub build-running : (g g' : GraphExecutor P) → build g ≡ some g' → g'.running ≡ g.running
  unfolding build
  build-running g g' h = elim (Bool-cases (has_stages g g.cfg.nodes)) [
    | inl e ↦
        ap (λ (x : GraphExecutor P). x.running) (sym (some_inj (rw e at h)))
        ∙ add_edges-running g g.cfg.edges
    | inr e ↦ absurd (none-ne-some (rw e at h))
  ]
