-- ===== src/BatchPolicy/Bounds.antt =====
-- The batch size of include/pipeline/BatchPolicy.h stays within its limits, and failures in a row
-- exhaust it.
use inference_server.Shared.{
  ◌≡◌, refl, ◌∙◌, true, ℕ, zero, suc, ◌+◌, ◌≤◌, ◌<◌, List, [], ◌∷◌, replicate, ◌++◌, arith,
}
use inference_server.BatchPolicy.{
  BatchPolicy, initial, on_oom, on_success, is_exhausted, Outcome, oom, success, after,
}

pub record IsSound (p : BatchPolicy) : Type 0 where
  pub low : 1 ≤ p.current_max
  pub high : p.current_max ≤ 16
  pub streak : p.success_streak < 120

on_oom-IsSound : (p : BatchPolicy) → IsSound p → IsSound (on_oom p)
unfolding on_oom
on_oom-IsSound p h = record {
  low = omega arith;
  high = omega (arith, h.high);
  streak = omega arith;
}

on_success-IsSound : (p : BatchPolicy) → IsSound p → IsSound (on_success p)
unfolding on_success
on_success-IsSound p h = record {
  low = ground (arith, h.low);
  high = ground (arith, h.high);
  streak = ground (arith, h.streak);
}

-- After any outcomes the batch size is between 1 and 16 and the streak is below the threshold, if
-- they were so before.
pub after-IsSound : (os : List Outcome) (p : BatchPolicy) → IsSound p → IsSound (after os p)
unfolding after
after-IsSound [] p h = h
after-IsSound (oom ∷ os) p h = after-IsSound os (on_oom p) (on_oom-IsSound p h)
after-IsSound (success ∷ os) p h = after-IsSound os (on_success p) (on_success-IsSound p h)

after-oom_count :
    (n : ℕ) (p : BatchPolicy) → (after (replicate n oom) p).oom_count ≡ p.oom_count + n
unfolding after on_oom
after-oom_count zero p = omega arith
after-oom_count (suc n) p = after-oom_count n (on_oom p) ∙ omega arith

after-smallest :
    (n : ℕ) (p : BatchPolicy) → p.current_max ≡ 1 → (after (replicate n oom) p).current_max ≡ 1
unfolding after on_oom
after-smallest zero p h = h
after-smallest (suc n) p h = after-smallest n (on_oom p) (omega (arith, h))

after-append : (os qs : List Outcome) (p : BatchPolicy) → after (os ++ qs) p ≡ after qs (after os p)
unfolding after
after-append [] qs p = refl
after-append (oom ∷ os) qs p = after-append os qs (on_oom p)
after-append (success ∷ os) qs p = after-append os qs (on_success p)

smallest_of_four :
    (p : BatchPolicy) → p.current_max ≤ 16 → (on_oom (on_oom (on_oom (on_oom p)))).current_max ≡ 1
unfolding on_oom
smallest_of_four p h = omega (arith, h)

smallest_after_four :
    (n : ℕ) (p : BatchPolicy)
    → p.current_max ≤ 16
    → (after (replicate (suc (suc (suc (suc n)))) oom) p).current_max ≡ 1
unfolding after
smallest_after_four n p h = after-smallest n _ (smallest_of_four p h)

-- From the initial policy, after any outcomes, four or more failures in a row exhaust it.
pub oom-is_exhausted :
    (os : List Outcome) (n : ℕ)
    → is_exhausted (after (replicate (suc (suc (suc (suc n)))) oom) (after os initial)) ≡ true
unfolding is_exhausted
oom-is_exhausted os n = ground (
  arith,
  after-oom_count (suc (suc (suc (suc n)))) (after os initial),
  smallest_after_four n (after os initial) sound.high,
)
  where
    sound : IsSound (after os initial)
    sound =
        after-IsSound os initial
          (record { low = omega arith; high = omega arith; streak = omega arith })
