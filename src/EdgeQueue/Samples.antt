-- ===== src/EdgeQueue/Samples.antt =====
-- Runs of the queue of src/pipeline/EdgeQueue.cpp.
use inference_server.Shared.{
  ◌≡◌, ◌≢◌, refl, true, false, String, List, [], ◌∷◌, ◌++◌, none, some, arith,
}
use inference_server.Shared.Int.{pos}
use inference_server.Config.{drop_oldest}
use inference_server.EdgeQueue.{
  EdgeQueue, push_over, Act, offers, takes, stops, push, acts, stop, push_by, wait_for, act,
  try_push, take_front, after_wait,
}
use inference_server.EdgeQueue.Bounds.{IsBounded, PushIsBounded, push-IsBounded}
use inference_server.EdgeQueue.Order.{accepted, delivered, delivered-accepted, drain_lem, drain}
use inference_server.Deployment.{edge}

abbrev queue : EdgeQueue String
queue = record { cfg = edge; queue = "a" ∷ "b" ∷ []; stopped = false }

abbrev no_room : EdgeQueue String
no_room = record {
  cfg = record edge { capacity = pos 0; drop_policy = drop_oldest };
  queue = [];
  stopped = false;
}

abbrev history : List (Act String)
history = takes ∷ offers "c" ∷ offers "d" ∷ takes ∷ stops ∷ offers "e" ∷ []

-- A push on a full queue that waits until another thread has taken an event.
push_run :
    push ((offers "x" ∷ takes ∷ []) ∷ []) queue "c"
    ≡ some (true, record queue { queue = "b" ∷ "c" ∷ [] })
unfolding push push_by wait_for acts act try_push take_front after_wait
push_run = refl

queue-IsBounded : IsBounded queue
queue-IsBounded = record { positive = omega arith; within = omega arith }

push-IsBounded_example : PushIsBounded (push ((takes ∷ []) ∷ []) queue "c")
push-IsBounded_example = push-IsBounded ((takes ∷ []) ∷ []) queue "c" queue-IsBounded

-- A push that takes the front of an empty deque.
no_room_run : push [] no_room "a" ≡ none
unfolding push push_by push_over
no_room_run = refl

keeps_all : queue.cfg.drop_policy ≢ drop_oldest
keeps_all h = cc

delivered-accepted_example :
    delivered queue history ++ (acts queue history).queue ≡ queue.queue ++ accepted queue history
delivered-accepted_example = delivered-accepted queue history keeps_all

drain_lem_example : drain [] 3 (stop queue) ≡ some "a" ∷ some "b" ∷ none ∷ []
drain_lem_example = drain_lem [] (stop queue) ("a" ∷ "b" ∷ []) 1 refl refl
