-- ===== src/Batching/Flushing.antt =====
-- When src/pipeline/BatchScheduler.cpp sends a batch: the preferred sizes are sorted from the largest, and any
-- of them that is reached sends it.
use inference_server.Shared.{
  ◌≡◌, refl, ap, ◌∙◌, ℕ, suc, Bool, true, false, not, ◌&&◌, ◌||◌, List, [], ◌∷◌, if◌then◌else◌, any,
  arith,
}
use inference_server.Shared.Int.{ℤ, pos, negsuc}
use inference_server.Config.{ModelConfig}
use inference_server.Batching.{Batch, size, is_empty, int_geq}
use inference_server.Batching.Scheduler.{
  insert_desc, sort_desc, preferred_sizes, should_flush, front,
}

-- The least of a list of sizes.
unfoldable pub least : ℤ → List ℤ → ℤ
least n [] = n
least n (k ∷ ks) = let m = least k ks in if int_geq n m then m else n

unfoldable pub least_preferred : ModelConfig → ℤ
least_preferred cfg = elim cfg.preferred_batch_sizes [ [] ↦ cfg.batch_size | n ∷ ns ↦ least n ns ]

any-insert_desc :
    (p : ℤ → Bool) (n : ℤ) (ks : List ℤ) → any p (insert_desc n ks) ≡ (p n || any p ks)
unfolding insert_desc
any-insert_desc p n [] = refl
any-insert_desc p n (k ∷ ks) = ground (arith, any-insert_desc p n ks)

any-sort_desc : (p : ℤ → Bool) (ns : List ℤ) → any p (sort_desc ns) ≡ any p ns
unfolding sort_desc
any-sort_desc p [] = refl
any-sort_desc p (n ∷ ns) =
    any-insert_desc p n (sort_desc ns) ∙ ap (λ b. p n || b) (any-sort_desc p ns)

int_geq_trans : (a b c : ℤ) → int_geq a b ≡ true → int_geq b c ≡ true → int_geq a c ≡ true
int_geq_trans (pos a) (pos b) (pos c) h k = ground arith
int_geq_trans (pos a) b (negsuc c) h k = refl
int_geq_trans (pos a) (negsuc b) (pos c) h k = cc
int_geq_trans (negsuc a) (pos b) c h k = cc
int_geq_trans (negsuc a) (negsuc b) (pos c) h k = cc
int_geq_trans (negsuc a) (negsuc b) (negsuc c) h k = ground arith

int_geq_total : (a b : ℤ) → int_geq a b ≡ false → int_geq b a ≡ true
int_geq_total (pos a) (pos b) h = ground arith
int_geq_total (pos a) (negsuc b) h = cc
int_geq_total (negsuc a) (pos b) h = refl
int_geq_total (negsuc a) (negsuc b) h = ground arith

-- A size that reaches any of the sizes reaches the least.
any-least : (s n : ℤ) (ns : List ℤ) → any (λ t. int_geq s t) (n ∷ ns) ≡ int_geq s (least n ns)
unfolding least
any-least s n [] = ground arith
any-least s n (k ∷ ks) = ground (
  arith,
  any-least s k ks,
  int_geq_trans s n (least k ks),
  int_geq_trans s (least k ks) n,
  int_geq_total n (least k ks),
)

module _ {X : Type 0} where
  -- A batch is sent exactly if it is not empty and has reached the least of the preferred sizes
  -- (the batch size, where none is given) or is late.
  pub should_flush-least :
      (cfg : ModelConfig) (timeout : Bool) (b : Batch X)
      → should_flush (preferred_sizes cfg) timeout b
        ≡ (not (is_empty b.metas) && (int_geq (size b) (least_preferred cfg) || timeout))
  unfolding should_flush preferred_sizes least_preferred least
  should_flush-least cfg timeout b = reaches cfg.preferred_batch_sizes
    where
      reaches :
          (ps : List ℤ)
          → (not (is_empty b.metas)
              && (any
                    (λ t. int_geq (size b) t)
                    (if is_empty ps then cfg.batch_size ∷ [] else sort_desc ps)
                  || timeout))
            ≡ (not (is_empty b.metas)
                && (int_geq (size b) (elim ps [ [] ↦ cfg.batch_size | n ∷ ns ↦ least n ns ])
                    || timeout))
      reaches [] = rw (any-least (size b) cfg.batch_size []) refl
      reaches (n ∷ ns) =
          rw (any-sort_desc (λ t. int_geq (size b) t) (n ∷ ns), any-least (size b) n ns) refl

-- A batch that reached the largest size is sent.
pub any-front :
    (ps : List ℤ) (s : ℤ) (n : ℕ)
    → front ps ≡ pos (suc n)
    → int_geq s (pos (suc n)) ≡ true
    → any (λ t. int_geq s t) ps ≡ true
any-front [] s n e h = absurd (zero-ne e)
  where
    zero-ne : pos 0 ≡ pos (suc n) → ⊥
    zero-ne e = cc
any-front (p ∷ ps) s n e h = rw (e, h) refl
