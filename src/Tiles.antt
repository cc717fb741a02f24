-- ===== src/Tiles.antt =====
-- `SahiSchedulerStage::makeAxisStarts` and `makeFullTiles` of src/pipeline/stages/SahiSchedulerStage.cpp:
-- the tiles that cover a frame.
--
-- The overlap in pixels, which is rounded from a `float`, is a parameter, an `int` for each tile length.
-- Lengths are positive `int`s and natural numbers here. The loop takes fuel: it is given the length of
-- the axis, since a step is at least 1. An overlap for which the difference leaves the range of `int` is not part of
-- the model.
pub mod Cover
mod Samples
use inference_server.Shared.{
  ℕ, zero, suc, ◌+◌, ◌-◌, ◌≤◌, ◌<◌, min, max, Bool, true, false, not, ◌&&◌, ltb, leb, ◌==◌, List,
  [], ◌∷◌, ◌++◌, Option, none, some, if◌then◌else◌, map,
}
use inference_server.Shared.Int.{ℤ, pos, negsuc}

abbrev pub safe_tile : ℕ → ℕ → ℕ
safe_tile full tile = max 1 (min tile full)

-- `std::max(1, safe_tile - overlap_px)`; the ratio is not checked, so the overlap may be negative.
abbrev pub stride_of : ℤ → ℕ → ℕ
stride_of (pos n) tile = max 1 (tile - n)
stride_of (negsuc n) tile = max 1 (tile + suc n)

abbrev pub stride : (ℕ → ℤ) → ℕ → ℕ
stride overlap tile = stride_of (overlap tile) tile

-- `if (starts.empty() || starts.back() != start) starts.push_back(start)`, on the starts that follow:
-- `last` is the start before them, if there is one.
abbrev pub push_start : Option ℕ → ℕ → List ℕ → List ℕ
push_start none start rest = start ∷ rest
push_start (some last) start rest = if last == start then rest else start ∷ rest

-- The loop from `x` on; `none` where the fuel runs out.
unfoldable pub starts_from : ℕ → ℕ → ℕ → ℕ → ℕ → Option ℕ → Option (List ℕ)
starts_from zero full tile step x last = if ltb x full then none else some []
starts_from (suc fuel) full tile step x last =
    let start = min x (full - tile) in
    let rest = starts_from fuel full tile step (x + step) (some start) in
    if ltb x full
    then (if leb full (start + tile)
        then some (push_start last start [])
        else elim rest [ none ↦ none | some xs ↦ some (push_start last start xs) ])
    else some []

unfoldable pub make_axis_starts : (ℕ → ℤ) → ℕ → ℕ → Option (List ℕ)
make_axis_starts overlap full tile =
    let t = safe_tile full tile in starts_from full full t (stride overlap t) 0 none

pub record Rect : Type 0 where
  pub x : ℕ
  pub y : ℕ
  pub width : ℕ
  pub height : ℕ

-- The settings that these tiles depend on.
pub record SahiSchedulerConfig : Type 0 where
  pub tile_width : ℕ
  pub tile_height : ℕ
  pub x_overlap : ℕ → ℤ
  pub y_overlap : ℕ → ℤ

-- The tiles of one row.
unfoldable pub row : SahiSchedulerConfig → ℕ → ℕ → ℕ → List ℕ → List Rect
row cfg full_w y h [] = []
row cfg full_w y h (x ∷ xs) =
    record { x = x; y = y; width = min cfg.tile_width (full_w - x); height = h }
    ∷ row cfg full_w y h xs

unfoldable pub rows : SahiSchedulerConfig → ℕ → ℕ → List ℕ → List ℕ → List Rect
unfolding row
rows cfg full_w full_h xs [] = []
rows cfg full_w full_h xs (y ∷ ys) =
    row cfg full_w y (min cfg.tile_height (full_h - y)) xs ++ rows cfg full_w full_h xs ys

abbrev tiles_of :
    SahiSchedulerConfig → ℕ → ℕ → Option (List ℕ) → Option (List ℕ) → Option (List Rect)
tiles_of cfg full_w full_h (some xs) (some ys) = some (rows cfg full_w full_h xs ys)
tiles_of cfg full_w full_h _ _ = none

unfoldable pub make_full_tiles : SahiSchedulerConfig → ℕ → ℕ → Option (List Rect)
unfolding make_axis_starts rows
make_full_tiles cfg full_w full_h =
    tiles_of cfg full_w full_h (make_axis_starts cfg.x_overlap full_w cfg.tile_width)
      (make_axis_starts cfg.y_overlap full_h cfg.tile_height)
