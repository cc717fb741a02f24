-- ===== src/Batching/Accounts.antt =====
-- What becomes of the batches that src/pipeline/InferWorkerGroup.cpp gives to its workers.
use inference_server.Shared.{
  ◌≡◌, refl, sym, ℕ, zero, suc, ◌+◌, ◌≤◌, ◌%◌, Bool, true, ◌||◌, List, [], ◌∷◌, Option, none, some,
  if◌then◌else◌, length, length-append, leb, arith, any, inl, inr, Bool-cases, is_some, All,
}
use inference_server.Shared.Int.{ℤ}
use inference_server.Batching.{Batch}
use inference_server.Batching.Workers.{
  Worker, is_stopped, max_queue_size, get_elem?, passes, take_batch, update_at, give, enqueue,
  choose, dropped_batches,
}
use inference_server.Batching.Routes.{suits, choose-suits}

module _ {X : Type 0} where
  -- The batches that wait for a worker.
  unfoldable pub queued : List (Worker X) → ℕ
  queued [] = 0
  queued (w ∷ ws) = length w.queue + queued ws

  abbrev count : Worker X → ℕ
  count w = length w.queue + w.dropped_batches

  take_batch-count : (b : Batch X) (w : Worker X) → count (take_batch b w) ≡ suc (count w)
  unfolding take_batch
  take_batch-count b w = elim (Bool-cases (is_stopped w || leb max_queue_size (length w.queue))) [
    | inl e ↦ rw e (omega arith)
    | inr e ↦ rw e (omega (arith, length-append w.queue (b ∷ [])))
  ]

  update_at-count :
      (b : Batch X) (p : Worker X → Bool) (j : ℕ) (ws : List (Worker X))
      → passes p (get_elem? ws j) ≡ true
      → queued (update_at (take_batch b) j ws) + dropped_batches (update_at (take_batch b) j ws)
        ≡ suc (queued ws + dropped_batches ws)
  unfolding queued dropped_batches
  update_at-count b p j [] h = cc
  update_at-count b p zero (w ∷ ws) h = omega (arith, take_batch-count b w)
  update_at-count b p (suc j) (w ∷ ws) h = omega (arith, update_at-count b p j ws h)

  abbrev pub IsBounded : Worker X → Type 0
  IsBounded w = length w.queue ≤ max_queue_size

  take_batch-IsBounded : (b : Batch X) (w : Worker X) → IsBounded w → IsBounded (take_batch b w)
  unfolding take_batch
  take_batch-IsBounded b w h =
      elim (Bool-cases (is_stopped w || leb max_queue_size (length w.queue))) [
        | inl e ↦ rw e h
        | inr e ↦ rw e (ground (arith, length-append w.queue (b ∷ [])))
      ]

  update_at-All :
      (b : Batch X) (j : ℕ) (ws : List (Worker X))
      → All IsBounded ws
      → All IsBounded (update_at (take_batch b) j ws)
  update_at-All b j [] h = tt
  update_at-All b zero (w ∷ ws) h = (take_batch-IsBounded b w h.0, h.1)
  update_at-All b (suc j) (w ∷ ws) h = (h.0, update_at-All b j ws h.1)

  -- After enqueue the batches that wait for the workers and those that the workers counted as
  -- dropped are together one more than before if a worker suits the batch, and otherwise as many
  -- as before.
  pub enqueue-count :
      (b : Batch X) (restrict : Option ℤ) (ws : List (Worker X)) (idx : ℕ)
      → queued (enqueue b restrict (ws, idx)).0 + dropped_batches (enqueue b restrict (ws, idx)).0
        ≡ queued ws + dropped_batches ws + (if any (suits ws b restrict) ws then 1 else 0)
  unfolding enqueue
  enqueue-count b restrict ws idx =
      given (choose ws (idx % length ws) b restrict) (choose-suits ws (idx % length ws) b restrict)
    where
      given :
          (o : Option ℕ)
          → (is_some o ≡ any (suits ws b restrict) ws)
            × ((j : ℕ) → o ≡ some j → passes (suits ws b restrict) (get_elem? ws j) ≡ true)
          → queued (give b o ws) + dropped_batches (give b o ws)
            ≡ queued ws + dropped_batches ws + (if any (suits ws b restrict) ws then 1 else 0)
      given none h = rw (sym h.0) (omega arith)
      given (some j) h =
          rw (sym h.0) (omega (arith, update_at-count b (suits ws b restrict) j ws (h.1 j refl)))

  pub enqueue-All :
      (b : Batch X) (restrict : Option ℤ) (ws : List (Worker X)) (idx : ℕ)
      → All IsBounded ws
      → All IsBounded (enqueue b restrict (ws, idx)).0
  unfolding enqueue
  enqueue-All b restrict ws idx h = given (choose ws (idx % length ws) b restrict)
    where
      given : (o : Option ℕ) → All IsBounded (give b o ws)
      given none = h
      given (some j) = update_at-All b j ws h
