-- ===== src/EdgeQueue/Bounds.antt =====
-- The bound of the queue of src/pipeline/EdgeQueue.cpp, and the absence of undefined behaviour.
use inference_server.Shared.{
  ◌≤◌, ◌<◌, ◌≡◌, refl, Bool, true, false, Option, none, some, List, [], ◌∷◌, arith, length,
  length-append, Bool-cases, inl, inr,
}
use inference_server.Shared.Int.{to_size}
use inference_server.Config.{EdgeConfig, EdgeDropPolicy, block, drop_oldest, drop_newest}
use inference_server.EdgeQueue.{
  EdgeQueue, make, Act, offers, takes, stops, reopens, capacity, push_over, take_front, try_push,
  act, acts, wait_for, has_space, after_wait, push_by, push, has_event, pop, is_full, enqueue,
}

module _ {E : Type 0} where
  -- There is room for an event at all, and no more events wait than there is room for.
  pub record IsBounded (q : EdgeQueue E) : Type 0 where
    pub positive : 0 < capacity q
    pub within : length q.queue ≤ capacity q

  -- The call is defined and leaves a bounded queue.
  abbrev pub PushIsBounded : Option (Bool × EdgeQueue E) → Type 0
  PushIsBounded none = ⊥
  PushIsBounded (some (b, q)) = IsBounded q

  enqueue-IsBounded :
      (q : EdgeQueue E) (e : E) → IsBounded q → is_full q ≡ false → IsBounded (enqueue q e)
  enqueue-IsBounded q e v h = ground (arith, length-append q.queue (e ∷ []))

  push_over-IsBounded :
      (q : EdgeQueue E) (xs : List E) (e : E)
      → q.queue ≡ xs
      → is_full q ≡ true
      → IsBounded q
      → PushIsBounded (push_over q xs e)
  unfolding push_over
  push_over-IsBounded q [] e h f v = ground arith
  push_over-IsBounded q (x ∷ rest) e h f v = ground (arith, length-append rest (e ∷ []))

  take_front-IsBounded :
      (q : EdgeQueue E) (xs : List E) → q.queue ≡ xs → IsBounded q → IsBounded (take_front q xs).1
  unfolding take_front
  take_front-IsBounded q [] h v = v
  take_front-IsBounded q (x ∷ rest) h v = ground arith

  try_push-IsBounded : (q : EdgeQueue E) (e : E) → IsBounded q → PushIsBounded (try_push q e)
  unfolding try_push
  try_push-IsBounded q e v =
      ground (arith, enqueue-IsBounded q e v, push_over-IsBounded q q.queue e refl)

  act-IsBounded : (q : EdgeQueue E) (a : Act E) → IsBounded q → IsBounded (act q a)
  unfolding act
  act-IsBounded q (offers e) v = ground (arith, try_push-IsBounded q e v)
  act-IsBounded q takes v = take_front-IsBounded q q.queue refl v
  act-IsBounded q stops v = record { positive = v.positive; within = v.within }
  act-IsBounded q reopens v = record { positive = v.positive; within = v.within }

  acts-IsBounded : (q : EdgeQueue E) (as' : List (Act E)) → IsBounded q → IsBounded (acts q as')
  unfolding acts
  acts-IsBounded q [] v = v
  acts-IsBounded q (a ∷ as') v = acts-IsBounded (act q a) as' (act-IsBounded q a v)

  wait_for-IsBounded :
      (ready : EdgeQueue E → Bool) (q : EdgeQueue E) (waits : List (List (Act E)))
      → IsBounded q
      → IsBounded (wait_for ready q waits).1
  unfolding wait_for
  wait_for-IsBounded ready q [] v = v
  wait_for-IsBounded ready q (batch ∷ rest) v = elim (Bool-cases (ready q)) [
    | inl now ↦ rw now v
    | inr later ↦ rw later (wait_for-IsBounded ready (acts q batch) rest (acts-IsBounded q batch v))
  ]

  -- The condition that a wait reports is the one that holds at its end.
  wait_for-ready :
      (ready : EdgeQueue E → Bool) (q : EdgeQueue E) (waits : List (List (Act E)))
      → (wait_for ready q waits).0 ≡ ready (wait_for ready q waits).1
  unfolding wait_for
  wait_for-ready ready q [] = refl
  wait_for-ready ready q (batch ∷ rest) = ground (arith, wait_for-ready ready (acts q batch) rest)

  after_wait-IsBounded :
      (r : Bool × EdgeQueue E) (e : E)
      → r.0 ≡ has_space r.1
      → IsBounded r.1
      → PushIsBounded (after_wait r e)
  unfolding after_wait
  after_wait-IsBounded (b, q) e h v = ground (arith, enqueue-IsBounded q e v)

  push_by-IsBounded :
      (p : EdgeDropPolicy) (waits : List (List (Act E))) (q : EdgeQueue E) (e : E)
      → is_full q ≡ true
      → IsBounded q
      → PushIsBounded (push_by p waits q e)
  unfolding push_by
  push_by-IsBounded block waits q e f v =
      after_wait-IsBounded (wait_for has_space q waits) e (wait_for-ready has_space q waits)
        (wait_for-IsBounded has_space q waits v)
  push_by-IsBounded drop_oldest waits q e f v = push_over-IsBounded q q.queue e refl f v
  push_by-IsBounded drop_newest waits q e f v = v

  -- Whatever the policy and whatever the other threads do while it waits, a push on a queue whose
  -- capacity is positive, and that holds no more events than the capacity, is defined and leaves
  -- no more events than the capacity.
  pub push-IsBounded :
      (waits : List (List (Act E))) (q : EdgeQueue E) (e : E)
      → IsBounded q
      → PushIsBounded (push waits q e)
  unfolding push
  push-IsBounded waits q e v =
      ground (arith, enqueue-IsBounded q e v, push_by-IsBounded q.cfg.drop_policy waits q e)

  pub pop-IsBounded :
      (waits : List (List (Act E))) (q : EdgeQueue E) → IsBounded q → IsBounded (pop waits q).1
  unfolding pop
  pop-IsBounded waits q v = take_front-IsBounded _ _ refl (wait_for-IsBounded has_event q waits v)

  pub make-IsBounded : (cfg : EdgeConfig) → 0 < to_size cfg.capacity → IsBounded (make cfg)
  unfolding make
  make-IsBounded cfg h = record { positive = h; within = omega arith }
