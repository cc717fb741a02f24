-- ===== src/Batching/Retries.antt =====
-- What the loop of a worker in src/pipeline/InferWorker.cpp makes of its queue.
use mathlib.Core.Bool.{false≢true}
use inference_server.Shared.{
  ◌≡◌, refl, sym, ap, ◌∙◌, ℕ, zero, suc, ◌≤◌, Bool, true, false, List, [], ◌∷◌, length, leb,
  replicate, All, arith, inl, inr, Bool-cases,
}
use inference_server.BatchPolicy.{BatchPolicy, after, on_oom}
use inference_server.BatchPolicy as policy
use inference_server.Batching.{Batch, is_empty}
use inference_server.Batching.Workers.{max_queue_size, take_back}
use inference_server.Batching.Recovery.{
  InferWorker, Outcome, decoded, too_few, memory_pressure, gpu_fault, failed, conclude, work_on,
  work_round, worker_loop,
}

-- The outcome is not a `GpuMemoryPressureException`.
unfoldable pub moves_on : Outcome → Bool
moves_on memory_pressure = false
moves_on _ = true

module _ {X : Type 0} where
  -- The batch goes back to the head of the queue.
  pressed-round :
      (w : InferWorker X) (b : Batch X) (bs : List (Batch X))
      → is_empty b.metas ≡ false
      → length (b ∷ bs) ≤ max_queue_size
      → work_on (λ b. memory_pressure) (b ∷ bs) w ≡ record w {
        batch_policy = on_oom w.batch_policy;
        worker = record (w.worker) { queue = b ∷ bs };
      }
  unfolding work_on conclude take_back
  pressed-round w b bs e le = rw (e, room) refl
    where
      room : leb max_queue_size (length bs) ≡ false
      room = ground arith

  pressed-same :
      (w : InferWorker X) (b : Batch X) (bs : List (Batch X))
      → w.worker.queue ≡ b ∷ bs
      → is_empty b.metas ≡ false
      → length (b ∷ bs) ≤ max_queue_size
      → work_round (λ b. memory_pressure) w ≡ record w { batch_policy = on_oom w.batch_policy }
  unfolding work_round
  pressed-same w b bs q e le =
      ap (λ x. work_on (λ b. memory_pressure) x w) q
      ∙ pressed-round w b bs e le
      ∙ ap
          (λ x. record w {
            batch_policy = on_oom w.batch_policy;
            worker = record (w.worker) { queue = x };
          })
          (sym q)

  -- Where every round of a worker ends in memory pressure and nothing is enqueued meanwhile, its
  -- first batch, if it is not empty and the queue is not over its bound, is never got past: after
  -- any number of rounds the worker is as it was, but for the batch policy, which counted the
  -- failures.
  pub retry_lem :
      (n : ℕ) (w : InferWorker X) (b : Batch X) (bs : List (Batch X))
      → w.worker.queue ≡ b ∷ bs
      → is_empty b.metas ≡ false
      → length (b ∷ bs) ≤ max_queue_size
      → worker_loop (replicate n (λ b. memory_pressure)) w
        ≡ record w { batch_policy = after (replicate n policy.oom) w.batch_policy }
  unfolding worker_loop after
  retry_lem zero w b bs q e le = refl
  retry_lem (suc n) w b bs q e le =
      ap (worker_loop (replicate n (λ b. memory_pressure))) (pressed-same w b bs q e le)
      ∙ retry_lem n (record w { batch_policy = on_oom w.batch_policy }) b bs q e le

  taken :
      (infer : Batch X → Outcome) (w : InferWorker X) (b : Batch X) (bs : List (Batch X))
      → moves_on (infer b) ≡ true
      → (work_on infer (b ∷ bs) w).worker.queue ≡ bs
  unfolding work_on conclude moves_on
  taken infer w b bs h = elim (Bool-cases (is_empty b.metas)) [
    | inl e ↦ rw e refl
    | inr e ↦ rw e (concluded (infer b) h)
  ]
    where
      w' : InferWorker X
      w' = record w { worker = record (w.worker) { queue = bs } }

      concluded : (o : Outcome) → moves_on o ≡ true → (conclude o b w').worker.queue ≡ bs
      concluded decoded h = refl
      concluded too_few h = refl
      concluded memory_pressure h = absurd (false≢true h)
      concluded (gpu_fault fault loads) h = refl
      concluded (failed n) h = refl

  round-shorter :
      (infer : Batch X → Outcome) (w : InferWorker X) (n : ℕ) (q : List (Batch X))
      → ((b : Batch X) → moves_on (infer b) ≡ true)
      → w.worker.queue ≡ q
      → length q ≤ suc n
      → length (work_round infer w).worker.queue ≤ n
  unfolding work_round work_on
  round-shorter infer w n [] h e le =
      let same = ap (λ x. length (work_on infer x w).worker.queue) e in
      omega (arith, same, ap length e)
  round-shorter infer w n (b ∷ bs) h e le =
      let same = ap (λ x. length (work_on infer x w).worker.queue) e in
      omega (arith, same, ap length (taken infer w b bs (h b)), le)

  -- A worker to which nothing is enqueued has worked its queue off after as many rounds as the
  -- queue has batches, if no round ends in a GpuMemoryPressureException; a round that ends in a
  -- GpuFaultException, of the type OOM too, loses its batch all the same.
  pub worker_loop-drains :
      (rs : List (Batch X → Outcome)) (w : InferWorker X)
      → All (λ infer. (b : Batch X) → moves_on (infer b) ≡ true) rs
      → length w.worker.queue ≤ length rs
      → (worker_loop rs w).worker.queue ≡ []
  unfolding worker_loop
  worker_loop-drains [] w h le = none_left w.worker.queue le
    where
      none_left : (q : List (Batch X)) → length q ≤ 0 → q ≡ []
      none_left [] le = refl
      none_left (b ∷ bs) le = absurd (omega (arith, le))
  worker_loop-drains (infer ∷ rs) w h le =
      worker_loop-drains rs (work_round infer w) h.1
        (round-shorter infer w (length rs) w.worker.queue h.0 refl le)
