-- ===== src/Graph.antt =====
-- src/pipeline/GraphExecutor.cpp and include/pipeline/Event.h: the executor of a pipeline graph.
--
-- A stage is seen through `IStage`: its identifier, whether it is a source, and what its methods
-- do. `start()` may throw, which is told by the environment `throws`. The calls that the executor
-- makes on stages, queues and threads are recorded in the order of the code.
pub mod Worker
pub mod Calls
pub mod Lifecycle
pub mod Routing
pub mod Building
pub mod Emission
pub mod Rounds
pub mod Running
mod Samples
use Prim.Native.String.{◌++◌ as concat}
use inference_server.Shared.{
  ℕ, ◌+◌, Bool, true, false, not, ◌&&◌, Option, none, some, List, [], ◌∷◌, ◌++◌, String, str_eq,
  if◌then◌else◌, lookup, insert, map, length, is_some,
}
use inference_server.Config.{StageConfig, EdgeConfig, PipelineConfig}
use inference_server.EdgeQueue.{EdgeQueue, Act}
use inference_server.EdgeQueue

-- The event that travels along the edges. `payload` stands for the frame, the tile information and
-- the inference result, which the executor hands on unread.
pub record EventEnvelope (P : Type 0) : Type 0 where
  pub event_id : String
  pub stream_id : String
  pub frame_seq : ℕ
  pub source_queue_size : Option ℕ
  pub ingress_edge : Option String
  pub ingress_edge_queue_size : Option ℕ
  pub received_at_infer_ns : ℕ
  pub payload : Option P

pub record Stage : Type 0 where
  pub id : String
  pub is_source : Bool

pub data Call : Type 0 where
  reopens_queue stops_queue starts_stage spawns_worker drains_stage joins_worker stops_stage :
      String → Call

pub record GraphExecutor (P : Type 0) : Type 0 where
  pub cfg : PipelineConfig
  pub stages : List (String × Stage)
  pub outgoing : List (String × List String)
  pub incoming_edge_keys : List (String × List String)
  pub edges : List (String × EdgeQueue (EventEnvelope P))
  pub worker_threads : List String
  pub running : Bool

pub edge_key : String → String → String
edge_key from to = concat from (concat "->" to)

-- How a call ends: normally, by the exception of `edges_.at`, or in undefined behaviour.
pub data Outcome {ℓ} (A : Type ℓ) : Type ℓ where
  done : A → Outcome A
  out_of_range undefined : Outcome A

infixl 5 ◌>>=◌
abbrev pub ◌>>=◌ {ℓ κ} : {A : Type ℓ} {B : Type κ} → Outcome A → (A → Outcome B) → Outcome B
done a >>= f = f a
out_of_range >>= f = out_of_range
undefined >>= f = undefined

-- The loop of `start` over the stages: the workers spawned, the calls, and whether it threw.
pub start_stages : (String → Bool) → List (String × Stage) → List String × List Call × Bool
start_stages throws [] = ([], [], false)
start_stages throws ((id, stage) ∷ rest) =
    let (ws, cs, threw) = start_stages throws rest in
    if throws id
    then ([], starts_stage id ∷ [], true)
    else (id ∷ ws, starts_stage id ∷ spawns_worker id ∷ cs, threw)

-- `m[k].push_back(v)`
pub push_back {ℓ} : {V : Type ℓ} → List (String × List V) → String → V → List (String × List V)
push_back m k v = elim (lookup m k) [
  | none ↦ insert m k (v ∷ [])
  | some vs ↦ insert m k (vs ++ v ∷ [])
]

-- What the other threads do to each queue while a call waits on it.
abbrev pub Environment : Type 0 → Type 0
Environment P = String → List (List (Act (EventEnvelope P)))

module _ {P : Type 0} where
  unfoldable pub make : PipelineConfig → GraphExecutor P
  make cfg = record {
    cfg = cfg;
    stages = [];
    outgoing = [];
    incoming_edge_keys = [];
    edges = [];
    worker_threads = [];
    running = false;
  }

  unfoldable pub add_stage : GraphExecutor P → Stage → GraphExecutor P
  add_stage g stage = record g { stages = insert g.stages stage.id stage }

  pub add_edge : GraphExecutor P → EdgeConfig → GraphExecutor P
  unfolding push_back edge_key
  add_edge g e = record g {
    outgoing = push_back g.outgoing e.from e.to;
    edges = insert g.edges (edge_key e.from e.to) (EdgeQueue.make e);
    incoming_edge_keys = push_back g.incoming_edge_keys e.to (edge_key e.from e.to);
  }

  pub add_edges : GraphExecutor P → List EdgeConfig → GraphExecutor P
  add_edges g [] = g
  add_edges g (e ∷ es) = add_edges (add_edge g e) es

  unfoldable pub has_stages : GraphExecutor P → List StageConfig → Bool
  has_stages g [] = true
  has_stages g (n ∷ ns) = is_some (lookup g.stages n.id) && has_stages g ns

  -- `none`: a node has no stage, and `build` throws before it changes anything.
  unfoldable pub build : GraphExecutor P → Option (GraphExecutor P)
  unfolding has_stages add_edges
  build g = if has_stages g g.cfg.nodes then some (add_edges g g.cfg.edges) else none

  pub keep_queue :
      GraphExecutor P
      → String
      → Option (Bool × EdgeQueue (EventEnvelope P))
      → Outcome (GraphExecutor P)
  keep_queue g key none = undefined
  keep_queue g key (some (_, q)) = done (record g { edges = insert g.edges key q })

  pub push_to :
      Environment P
      → GraphExecutor P
      → String
      → EventEnvelope P
      → Option (EdgeQueue (EventEnvelope P))
      → Outcome (GraphExecutor P)
  push_to env g key event none = out_of_range
  push_to env g key event (some q) = keep_queue g key (EdgeQueue.push (env key) q event)

  -- `edges_.at(key)->push(event)`
  pub push_edge :
      Environment P → GraphExecutor P → String → EventEnvelope P → Outcome (GraphExecutor P)
  unfolding keep_queue push_to
  push_edge env g key event = push_to env g key event (lookup g.edges key)

  pub emit_all :
      Environment P
      → GraphExecutor P
      → String
      → EventEnvelope P
      → List String
      → Outcome (GraphExecutor P)
  emit_all env g from event [] = done g
  emit_all env g from event (to ∷ targets) =
      push_edge env g (edge_key from to) event >>= λ g'. emit_all env g' from event targets

  pub emit_targets :
      Environment P
      → GraphExecutor P
      → String
      → EventEnvelope P
      → Option (List String)
      → Outcome (GraphExecutor P)
  emit_targets env g from event none = done g
  emit_targets env g from event (some targets) = emit_all env g from event targets

  pub emit_to_downstream :
      Environment P → GraphExecutor P → String → EventEnvelope P → Outcome (GraphExecutor P)
  unfolding emit_targets
  emit_to_downstream env g from event = emit_targets env g from event (lookup g.outgoing from)

  -- What `process` emits, in order.
  pub emit_events :
      Environment P → GraphExecutor P → String → List (EventEnvelope P) → Outcome (GraphExecutor P)
  emit_events env g from [] = done g
  emit_events env g from (e ∷ es) =
      emit_to_downstream env g from e >>= λ g'. emit_events env g' from es

  abbrev pub empty_event : EventEnvelope P
  empty_event = record {
    event_id = "";
    stream_id = "";
    frame_seq = 0;
    source_queue_size = none;
    ingress_edge = none;
    ingress_edge_queue_size = none;
    received_at_infer_ns = 0;
    payload = none;
  }

  abbrev pub map_queues :
      (EdgeQueue (EventEnvelope P) → EdgeQueue (EventEnvelope P))
      → List (String × EdgeQueue (EventEnvelope P))
      → List (String × EdgeQueue (EventEnvelope P))
  map_queues f [] = []
  map_queues f ((k, q) ∷ rest) = (k, f q) ∷ map_queues f rest

  -- The Boolean tells whether an exception left the call.
  unfoldable pub start : (String → Bool) → GraphExecutor P → GraphExecutor P × List Call × Bool
  unfolding start_stages
  start throws g =
      let (ws, cs, threw) = start_stages throws g.stages in
      if g.running then (g, [], false) else (
        record g {
          edges = map_queues EdgeQueue.reopen g.edges;
          worker_threads = g.worker_threads ++ ws;
          running = true;
        },
        map (λ (k, q). reopens_queue k) g.edges ++ cs,
        threw,
      )

  unfoldable pub stop : GraphExecutor P → GraphExecutor P × List Call
  stop g =
      if g.running
      then (
        record g {
          edges = map_queues EdgeQueue.stop g.edges;
          worker_threads = [];
          running = false;
        },
        map (λ (k, q). stops_queue k) g.edges
            ++ (map (λ (id, stage). drains_stage id) g.stages
                ++ (map joins_worker g.worker_threads
                    ++ map (λ (id, stage). stops_stage id) g.stages)),
      )
      else (g, [])
