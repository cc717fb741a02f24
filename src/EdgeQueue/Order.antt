-- ===== src/EdgeQueue/Order.antt =====
-- What the queue of src/pipeline/EdgeQueue.cpp does with the events: it keeps their order, loses
-- none except by its policy, and drains after a stop.
use Prim.Native.Nat.add
use mathlib.Core.List.{append_assoc, append-nil}
use inference_server.Shared.{
  ℕ, zero, suc, ◌+◌, map, length, replicate, ◌≡◌, ◌≢◌, refl, sym, ap, ◌∙◌, Bool, true, false,
  Option, none, some, List, [], ◌∷◌, ◌++◌, arith,
}
use inference_server.Config.{drop_oldest}
use inference_server.EdgeQueue.{
  EdgeQueue, Act, offers, takes, stops, reopens, push_over, take_front, try_push, act, acts,
  wait_for, push, pop, stop,
}

module _ {E : Type 0} where
  -- A push whose wait is over at once is the other threads' push.
  push-nil : (q : EdgeQueue E) (e : E) → push [] q e ≡ try_push q e
  unfolding push try_push
  push-nil q e = ground arith

  abbrev was_accepted : Option (Bool × EdgeQueue E) → E → List E
  was_accepted (some (true, q)) e = e ∷ []
  was_accepted _ e = []

  abbrev taken : Option E → List E
  taken none = []
  taken (some e) = e ∷ []

  -- The events that a history of calls accepts, in the order of the calls.
  pub accepted : EdgeQueue E → List (Act E) → List E
  accepted q [] = []
  accepted q (offers e ∷ as') = was_accepted (try_push q e) e ++ accepted (act q (offers e)) as'
  accepted q (a ∷ as') = accepted (act q a) as'

  -- The events that it hands out.
  pub delivered : EdgeQueue E → List (Act E) → List E
  delivered q [] = []
  delivered q (takes ∷ as') = taken (take_front q q.queue).0 ++ delivered (act q takes) as'
  delivered q (a ∷ as') = delivered (act q a) as'

  act-policy : (q : EdgeQueue E) (a : Act E) → (act q a).cfg ≡ q.cfg
  unfolding act try_push take_front push_over
  act-policy q (offers e) = ground arith
  act-policy q takes = ground arith
  act-policy q stops = refl
  act-policy q reopens = refl

  offers_lem :
      (q : EdgeQueue E) (e : E)
      → q.cfg.drop_policy ≢ drop_oldest
      → (act q (offers e)).queue ≡ q.queue ++ was_accepted (try_push q e) e
  unfolding act try_push
  offers_lem q e h = ground (arith, append-nil q.queue)

  takes_lem :
      (q : EdgeQueue E) (xs : List E)
      → q.queue ≡ xs
      → q.queue ≡ taken (take_front q xs).0 ++ (take_front q xs).1.queue
  unfolding take_front
  takes_lem q [] h = ground arith
  takes_lem q (x ∷ xs) h = h

  taken-act : (q : EdgeQueue E) → q.queue ≡ taken (take_front q q.queue).0 ++ (act q takes).queue
  unfolding act
  taken-act q = takes_lem q q.queue refl

  stops_lem : (q : EdgeQueue E) → (act q stops).queue ≡ q.queue
  unfolding act
  stops_lem q = refl

  reopens_lem : (q : EdgeQueue E) → (act q reopens).queue ≡ q.queue
  unfolding act
  reopens_lem q = refl

  keeps :
      (q : EdgeQueue E) (a : Act E)
      → q.cfg.drop_policy ≢ drop_oldest
      → (act q a).cfg.drop_policy ≢ drop_oldest
  keeps q a h = rw (act-policy q a) h

  -- Unless the policy is DropOldest, after any history of calls the events handed out, followed by
  -- those still queued, are the events queued at the start followed by the accepted ones.
  pub delivered-accepted :
      (q : EdgeQueue E) (as' : List (Act E))
      → q.cfg.drop_policy ≢ drop_oldest
      → delivered q as' ++ (acts q as').queue ≡ q.queue ++ accepted q as'
  unfolding delivered accepted acts
  delivered-accepted q [] h = sym (append-nil q.queue)
  delivered-accepted q (offers e ∷ as') h =
      delivered-accepted (act q (offers e)) as' (keeps q (offers e) h)
      ∙ ap (λ l. l ++ accepted (act q (offers e)) as') (offers_lem q e h)
      ∙ append_assoc q.queue (was_accepted (try_push q e) e) (accepted (act q (offers e)) as')
  delivered-accepted q (takes ∷ as') h =
      append_assoc (taken (take_front q q.queue).0) (delivered (act q takes) as') _
      ∙ ap (λ l. taken (take_front q q.queue).0 ++ l)
          (delivered-accepted (act q takes) as' (keeps q takes h))
      ∙ sym (append_assoc (taken (take_front q q.queue).0) (act q takes).queue _)
      ∙ ap (λ l. l ++ accepted (act q takes) as') (sym (taken-act q))
  delivered-accepted q (stops ∷ as') h =
      delivered-accepted (act q stops) as' (keeps q stops h)
      ∙ ap (λ l. l ++ accepted (act q stops) as') (stops_lem q)
  delivered-accepted q (reopens ∷ as') h =
      delivered-accepted (act q reopens) as' (keeps q reopens h)
      ∙ ap (λ l. l ++ accepted (act q reopens) as') (reopens_lem q)

  -- After a stop a push is refused and changes nothing, whatever the policy.
  pub push-stop :
      (waits : List (List (Act E))) (q : EdgeQueue E) (e : E)
      → push waits (stop q) e ≡ some (false, stop q)
  unfolding push
  push-stop waits q e = refl

  -- What `n` pops return.
  abbrev pub drain : List (List (Act E)) → ℕ → EdgeQueue E → List (Option E)
  drain waits zero q = []
  drain waits (suc n) q = (pop waits q).0 ∷ drain waits n (pop waits q).1

  pop_stopped :
      (waits : List (List (Act E))) (q : EdgeQueue E)
      → q.stopped ≡ true
      → pop waits q ≡ take_front q q.queue
  unfolding pop wait_for
  pop_stopped [] q h = refl
  pop_stopped (b ∷ w) q h = ground arith

  drain_empty :
      (waits : List (List (Act E))) (q : EdgeQueue E) (n : ℕ)
      → q.stopped ≡ true
      → q.queue ≡ []
      → drain waits n q ≡ replicate n none
  unfolding take_front
  drain_empty waits q zero s h = refl
  drain_empty waits q (suc n) s h = ground (arith, pop_stopped waits q s, drain_empty waits q n s h)

  -- A stopped queue is drained: the next pops return the events that it holds, oldest first, and
  -- every further pop returns nothing; what other threads would do in a wait plays no part.
  pub drain_lem :
      (waits : List (List (Act E))) (q : EdgeQueue E) (xs : List E) (n : ℕ)
      → q.stopped ≡ true
      → q.queue ≡ xs
      → drain waits (length xs + n) q ≡ map some xs ++ replicate n none
  unfolding take_front
  drain_lem waits q [] n s h = rw (drain_empty waits q (0 + n) s h) (ground arith)
  drain_lem waits q (x ∷ xs) n s h =
      rw add.suc (
        ground
          (arith, pop_stopped waits q s, drain_lem waits (record q { queue = xs }) xs n s refl))
