-- ===== src/Stream/Devices.antt =====
-- src/stream/GpuDeviceAllocator.cpp: streams take the GPU with the fewest active streams.
pub mod Balance
use inference_server.Shared.{
  Bool, true, false, ℕ, zero, suc, ◌+◌, ◌-◌, ltb, leb, ◌==◌, List, [], ◌∷◌, Option, none, some,
  if◌then◌else◌, map,
}
use inference_server.Shared.Int.{ℤ, int_eq}

-- The constructor; `none` is the exception for an empty list.
unfoldable pub make : List ℤ → Option (List (ℤ × ℕ))
make [] = none
make (id ∷ ids) = some (map (λ i. (i, 0)) (id ∷ ids))

-- The smallest count.
unfoldable pub least : List (ℤ × ℕ) → Option ℕ
least [] = none
least ((id, c) ∷ ds) = elim (least ds) [ none ↦ some c | some d ↦ some (if leb c d then c else d) ]

-- The first device with the count gets one more stream.
unfoldable pub take_slot : ℕ → List (ℤ × ℕ) → Option ℤ × List (ℤ × ℕ)
take_slot m [] = (none, [])
take_slot m ((id, c) ∷ ds) =
    let r = take_slot m ds in if c == m then (some id, (id, c + 1) ∷ ds) else (r.0, (id, c) ∷ r.1)

abbrev take_least : List (ℤ × ℕ) → Option ℕ → Option ℤ × List (ℤ × ℕ)
take_least ds none = (none, ds)
take_least ds (some m) = take_slot m ds

-- `none` for no devices, where the C++ code is undefined; the constructor excludes it.
unfoldable pub acquire : List (ℤ × ℕ) → Option ℤ × List (ℤ × ℕ)
acquire ds = take_least ds (least ds)

unfoldable pub release : List (ℤ × ℕ) → ℤ → List (ℤ × ℕ)
release [] device_id = []
release ((id, c) ∷ ds) device_id =
    let rest = release ds device_id in
    if int_eq id device_id then (id, if ltb 0 c then c - 1 else c) ∷ ds else (id, c) ∷ rest

unfoldable pub active_streams : List (ℤ × ℕ) → ℤ → ℕ
active_streams [] device_id = 0
active_streams ((id, c) ∷ ds) device_id =
    if int_eq id device_id then c else active_streams ds device_id
