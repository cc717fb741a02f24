-- ===== src/Graph/Lifecycle.antt =====
-- The lifecycle of `GraphExecutor` (src/pipeline/GraphExecutor.cpp): what `start` and `stop` do to
-- the queues, the threads and the stages, and in which order.
use inference_server.Shared.{
  ◌≡◌, refl, Bool, true, false, some, List, [], ◌∷◌, ◌++◌, map, String, arith, All, inl, inr,
  Bool-cases,
}
use inference_server.EdgeQueue.{EdgeQueue}
use inference_server.Graph.Calls.{replay, replay_two, replay-nil, replay-start, replay-stop}
use inference_server.Graph.{
  EventEnvelope, Stage, GraphExecutor, Call, start_stages, start, stop, map_queues,
}

start_stages-all :
    (throws : String → Bool) (m : List (String × Stage))
    → All (λ e. throws e.0 ≡ false) m
    → start_stages throws m ≡ (map (λ e. e.0) m, (start_stages throws m).1, false)
unfolding start_stages
start_stages-all throws [] h = refl
start_stages-all throws ((id, stage) ∷ m) h = ground (arith, start_stages-all throws m h.1)

-- What is asked of an executor: `throws` tells which stages fail to start.
pub data Command : Type 0 where
  starts : (throws : String → Bool) → Command
  stops : Command

module _ {P : Type 0} where
  pub obey : GraphExecutor P → Command → GraphExecutor P × List Call
  obey g (starts throws) = let r = start throws g in (r.0, r.1)
  obey g stops = stop g

  -- The executor after a list of commands, and all the calls that it made.
  pub obey_all : GraphExecutor P → List Command → GraphExecutor P × List Call
  obey_all g [] = (g, [])
  obey_all g (c ∷ cs) =
      let (g', calls) = obey g c in let (g'', later) = obey_all g' cs in (g'', calls ++ later)

  obey_lem :
      (g : GraphExecutor P) (c : Command)
      → replay g.worker_threads (obey g c).1 ≡ some (obey g c).0.worker_threads
  unfolding obey
  obey_lem g (starts throws) = replay-start throws g
  obey_lem g stops = replay-stop g

  -- After any commands, whichever stages fail to start, the calls join only workers that are alive
  -- and release a stage only while no worker is alive, and the workers that they leave alive are
  -- the ones that the executor holds.
  pub replay-obey_all :
      (g : GraphExecutor P) (cs : List Command)
      → replay g.worker_threads (obey_all g cs).1 ≡ some (obey_all g cs).0.worker_threads
  unfolding obey_all
  replay-obey_all g [] = replay-nil g.worker_threads
  replay-obey_all g (c ∷ cs) =
      replay_two g.worker_threads (obey g c).0.worker_threads _ (obey g c).1 _ (obey_lem g c)
        (replay-obey_all (obey g c).0 cs)

  -- The state between the calls: an executor that runs has its queues open, and one that does not
  -- has no workers.
  pub record IsSettled (g : GraphExecutor P) : Type 0 where
    pub opened : g.running ≡ true → All (λ e. e.1.stopped ≡ false) g.edges
    pub idle : g.running ≡ false → g.worker_threads ≡ []

  reopened :
      (qs : List (String × EdgeQueue (EventEnvelope P)))
      → All (λ e. e.1.stopped ≡ false) (map_queues (λ q. record q { stopped = false }) qs)
  reopened [] = tt
  reopened ((k, q) ∷ qs) = (refl, reopened qs)

  closed :
      (qs : List (String × EdgeQueue (EventEnvelope P)))
      → All (λ e. e.1.stopped ≡ true) (map_queues (λ q. record q { stopped = true }) qs)
  closed [] = tt
  closed ((k, q) ∷ qs) = (refl, closed qs)

  obey-IsSettled : (g : GraphExecutor P) (c : Command) → IsSettled g → IsSettled (obey g c).0
  unfolding obey start stop
  obey-IsSettled g (starts throws) v = elim (Bool-cases g.running) [
    | inl e ↦ simp e v
    | inr e ↦ rw e (record { opened = λ _. reopened g.edges; idle = λ h. cc })
  ]
  obey-IsSettled g stops v = elim (Bool-cases g.running) [
    | inr e ↦ simp e v
    | inl e ↦ rw e (record { opened = λ h. cc; idle = λ _. refl })
  ]

  pub obey_all-IsSettled :
      (g : GraphExecutor P) (cs : List Command) → IsSettled g → IsSettled (obey_all g cs).0
  unfolding obey_all
  obey_all-IsSettled g [] v = v
  obey_all-IsSettled g (c ∷ cs) v = obey_all-IsSettled (obey g c).0 cs (obey-IsSettled g c v)

  pub make-IsSettled :
      (g : GraphExecutor P) → g.running ≡ false → g.worker_threads ≡ [] → IsSettled g
  make-IsSettled g r w = record { opened = λ h. absurd (clash r h); idle = λ _. w }
    where
      clash : g.running ≡ false → g.running ≡ true → ⊥
      clash a b = cc

  -- Started while it does not run, and with no stage that fails to start, a settled executor runs
  -- one worker for each stage, with every queue open; stopped then, it has no worker, and every
  -- queue is closed.
  pub start-stop_lem :
      (throws : String → Bool) (g : GraphExecutor P)
      → IsSettled g
      → All (λ e. throws e.0 ≡ false) g.stages
      → g.running ≡ false
      → let on = (start throws g).0 in
        let off = (stop on).0 in
        ((start throws g).2 ≡ false)
        × (on.running ≡ true)
        × (on.worker_threads ≡ map (λ e. e.0) g.stages)
        × All (λ e. e.1.stopped ≡ false) on.edges
        × (off.running ≡ false)
        × (off.worker_threads ≡ [])
        × All (λ e. e.1.stopped ≡ true) off.edges
  unfolding start stop
  start-stop_lem throws g v h idle =
      simp (idle, v.idle idle, start_stages-all throws g.stages h)
        (refl, refl, refl, reopened g.edges, refl, refl, closed _)
