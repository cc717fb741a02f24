-- ===== src/BatchPolicy.antt =====
-- include/pipeline/BatchPolicy.h: how the batch size follows the failures of the GPU.
--
-- The members start from numbers that are not negative and stay so, and are natural numbers here; the
-- count of failures is not bounded.
pub mod Bounds
mod Samples
use inference_server.Shared.{
  Bool, true, false, ◌&&◌, ℕ, zero, suc, ◌+◌, ◌*◌, ◌/◌, ltb, leb, ◌==◌, if◌then◌else◌, min, max,
  List, [], ◌∷◌,
}

pub record BatchPolicy : Type 0 where
  pub current_max : ℕ
  pub oom_count : ℕ
  pub success_streak : ℕ

abbrev pub initial : BatchPolicy
initial = record { current_max = 16; oom_count = 0; success_streak = 0 }

abbrev pub restore_threshold : ℕ
restore_threshold = 120

unfoldable pub on_oom : BatchPolicy → BatchPolicy
on_oom p = record {
  current_max = max 1 (p.current_max / 2);
  oom_count = p.oom_count + 1;
  success_streak = 0;
}

unfoldable pub on_success : BatchPolicy → BatchPolicy
on_success p =
    if leb restore_threshold (p.success_streak + 1)
    then record p { current_max = min 16 (p.current_max * 2); success_streak = 0 }
    else record p { success_streak = p.success_streak + 1 }

unfoldable pub is_exhausted : BatchPolicy → Bool
is_exhausted p = p.current_max == 1 && ltb 3 p.oom_count

-- What becomes of a batch.
pub data Outcome : Type 0 where
  oom success : Outcome

unfoldable pub after : List Outcome → BatchPolicy → BatchPolicy
after [] p = p
after (oom ∷ os) p = after os (on_oom p)
after (success ∷ os) p = after os (on_success p)
