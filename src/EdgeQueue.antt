-- ===== src/EdgeQueue.antt =====
-- src/pipeline/EdgeQueue.cpp: the bounded queue on an edge of the graph.
--
-- Each method holds the mutex, so it is one step, except that a wait on the condition variable
-- gives the mutex away. A wait is described by what the other threads do in it: a list of batches
-- of their steps, one batch before each new look at the condition. Where the list ends, the time
-- limit of the wait has passed. `none` is a call whose behaviour is undefined: `pop_front` on an
-- empty deque.
pub mod Bounds
pub mod Order
mod Samples
use inference_server.Shared.{
  ℕ, ◌≤◌, ◌<◌, Bool, true, false, not, ◌&&◌, ◌||◌, Option, none, some, List, [], ◌∷◌, ◌++◌, leb,
  if◌then◌else◌, length,
}
use inference_server.Shared.Int.{to_size}
use inference_server.Config.{EdgeConfig, EdgeDropPolicy, block, drop_oldest, drop_newest}

pub record EdgeQueue (E : Type 0) : Type 0 where
  pub cfg : EdgeConfig
  pub queue : List E
  pub stopped : Bool

-- What another thread does to the queue while this one waits.
pub data Act (E : Type 0) : Type 0 where
  offers : E → Act E
  takes stops reopens : Act E

module _ {E : Type 0} where
  pub make : EdgeConfig → EdgeQueue E
  make cfg = record { cfg = cfg; queue = []; stopped = false }

  abbrev pub capacity : EdgeQueue E → ℕ
  capacity q = to_size q.cfg.capacity

  abbrev pub is_full : EdgeQueue E → Bool
  is_full q = leb (capacity q) (length q.queue)

  abbrev pub is_empty : EdgeQueue E → Bool
  is_empty q = leb (length q.queue) 0

  abbrev pub enqueue : EdgeQueue E → E → EdgeQueue E
  enqueue q e = record q { queue = q.queue ++ e ∷ [] }

  abbrev pub stop : EdgeQueue E → EdgeQueue E
  stop q = record q { stopped = true }

  abbrev pub reopen : EdgeQueue E → EdgeQueue E
  reopen q = record q { stopped = false }

  -- `queue_.pop_front(); queue_.push_back(event)`.
  pub push_over : EdgeQueue E → List E → E → Option (Bool × EdgeQueue E)
  push_over q [] e = none
  push_over q (x ∷ rest) e = some (true, record q { queue = rest ++ e ∷ [] })

  -- `if (queue_.empty()) return false;` and the removal of the front.
  pub take_front : EdgeQueue E → List E → Option E × EdgeQueue E
  take_front q [] = (none, q)
  take_front q (x ∷ rest) = (some x, record q { queue = rest })

  -- A push on a full queue, up to the wait of the policy `Block`.
  abbrev pub push_full : EdgeDropPolicy → EdgeQueue E → E → Option (Bool × EdgeQueue E)
  push_full drop_newest q e = some (false, q)
  push_full drop_oldest q e = push_over q q.queue e
  push_full block q e = some (false, q)

  -- A push that finds its wait over at once.
  pub try_push : EdgeQueue E → E → Option (Bool × EdgeQueue E)
  unfolding push_over
  try_push q e =
      if q.stopped
      then some (false, q)
      else if is_full q
      then push_full q.cfg.drop_policy q e
      else some (true, enqueue q e)

  abbrev pub settle : EdgeQueue E → Option (Bool × EdgeQueue E) → EdgeQueue E
  settle q none = q
  settle q (some (b, q')) = q'

  pub act : EdgeQueue E → Act E → EdgeQueue E
  unfolding try_push take_front
  act q (offers e) = settle q (try_push q e)
  act q takes = (take_front q q.queue).1
  act q stops = stop q
  act q reopens = reopen q

  pub acts : EdgeQueue E → List (Act E) → EdgeQueue E
  acts q [] = q
  acts q (a ∷ as') = acts (act q a) as'

  -- `cv_.wait_for(lock, …, ready)`: its result and the queue after the wait.
  pub wait_for : (EdgeQueue E → Bool) → EdgeQueue E → List (List (Act E)) → Bool × EdgeQueue E
  unfolding acts
  wait_for ready q [] = (ready q, q)
  wait_for ready q (batch ∷ rest) =
      let later = wait_for ready (acts q batch) rest in if ready q then (true, q) else later

  abbrev pub has_space : EdgeQueue E → Bool
  has_space q = q.stopped || not (is_full q)

  -- The end of a push under `Block`, after the wait.
  pub after_wait : Bool × EdgeQueue E → E → Option (Bool × EdgeQueue E)
  after_wait (ready, q) e =
      if not ready || q.stopped then some (false, q) else some (true, enqueue q e)

  pub push_by : EdgeDropPolicy → List (List (Act E)) → EdgeQueue E → E → Option (Bool × EdgeQueue E)
  unfolding push_over wait_for after_wait
  push_by drop_newest waits q e = some (false, q)
  push_by drop_oldest waits q e = push_over q q.queue e
  push_by block waits q e = after_wait (wait_for has_space q waits) e

  pub push : List (List (Act E)) → EdgeQueue E → E → Option (Bool × EdgeQueue E)
  unfolding push_by
  push waits q e =
      if q.stopped
      then some (false, q)
      else if is_full q
      then push_by q.cfg.drop_policy waits q e
      else some (true, enqueue q e)

  abbrev pub has_event : EdgeQueue E → Bool
  has_event q = q.stopped || not (is_empty q)

  pub pop : List (List (Act E)) → EdgeQueue E → Option E × EdgeQueue E
  unfolding wait_for take_front
  pop waits q = let q' = (wait_for has_event q waits).1 in take_front q' q'.queue
