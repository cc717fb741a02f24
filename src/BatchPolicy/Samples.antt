-- ===== src/BatchPolicy/Samples.antt =====
-- Runs of include/pipeline/BatchPolicy.h.
use inference_server.Shared.{◌≡◌, refl, suc, true, List, [], ◌∷◌, replicate, arith}
use inference_server.BatchPolicy.{
  initial, oom, success, after, Outcome, is_exhausted, on_oom, on_success,
}
use inference_server.BatchPolicy.Bounds.{IsSound, after-IsSound, oom-is_exhausted}

abbrev outcomes : List Outcome
outcomes = success ∷ oom ∷ success ∷ oom ∷ []

after_run : after outcomes initial ≡ record { current_max = 4; oom_count = 2; success_streak = 0 }
unfolding after on_oom on_success
after_run = refl

initial-IsSound : IsSound initial
initial-IsSound = record { low = omega arith; high = omega arith; streak = omega arith }

after-IsSound_example : IsSound (after outcomes initial)
after-IsSound_example = after-IsSound outcomes initial initial-IsSound

oom-is_exhausted_example :
    is_exhausted (after (replicate (suc (suc (suc (suc 0)))) oom) (after outcomes initial)) ≡ true
oom-is_exhausted_example = oom-is_exhausted outcomes 0
