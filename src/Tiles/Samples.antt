-- ===== src/Tiles/Samples.antt =====
-- Tiles of src/pipeline/stages/SahiSchedulerStage.cpp on small frames.
use inference_server.Shared.{◌≡◌, refl, ℕ, ◌/◌, [], ◌∷◌, some, arith}
use inference_server.Shared.Int.{ℤ, pos}
use inference_server.Tiles.{safe_tile, make_axis_starts, starts_from}
use inference_server.Tiles.Cover.{CoversAxis, make_axis_starts-CoversAxis}

abbrev quarter : ℕ → ℤ
quarter n = pos (n / 4)

starts_run : make_axis_starts quarter 20 8 ≡ some (0 ∷ 6 ∷ 12 ∷ [])
unfolding make_axis_starts starts_from
starts_run = refl

make_axis_starts-CoversAxis_example : CoversAxis 20 (safe_tile 20 8) (make_axis_starts quarter 20 8)
make_axis_starts-CoversAxis_example = make_axis_starts-CoversAxis quarter 20 8 (omega arith) refl
