-- ===== src/Batching.antt =====
-- include/common/Types.h: frames and batches; src/pipeline/BatchScheduler.cpp: how a frame joins a batch.
--
-- The build is the one with BUILD_ASCEND_BACKEND; in another build no frame is an Ascend frame. `X` stands
-- for pixels and device memory, which the code only moves. The `double` in a frame's description is kept
-- as its bit pattern.
pub mod Scheduler
pub mod Workers
pub mod Collection
pub mod Delivery
pub mod Flushing
pub mod Conservation
pub mod Routes
pub mod Accounts
pub mod Recovery
pub mod Retries
mod Samples
use inference_server.Shared.{
  ℕ, Bool, true, false, not, ◌&&◌, ◌||◌, String, List, [], ◌∷◌, ◌++◌, Option, none, some, str_eq,
  if◌then◌else◌, length, leb,
}
use inference_server.Shared.Int.{ℤ, pos, negsuc}

pub record StreamMeta : Type 0 where
  pub stream_id : String
  pub model_id : String
  pub capture_ts : ℕ
  pub capture_mono_ns : ℕ
  pub frame_seq : ℕ
  pub orig_width : ℤ
  pub orig_height : ℤ

pub record GpuBuffer (X : Type 0) : Type 0 where
  pub planes : X
  pub cuda_device_id : ℤ

pub record AscendBuffer (X : Type 0) : Type 0 where
  pub yuv_device : X
  pub device_id : ℤ

pub record Frame (X : Type 0) : Type 0 where
  pub image : X
  pub gpu_buf : GpuBuffer X
  pub is_gpu : Bool
  pub ascend_buf : AscendBuffer X
  pub is_ascend : Bool
  pub meta : StreamMeta

pub record Batch (X : Type 0) : Type 0 where
  pub frames : List X
  pub gpu_frames : List (GpuBuffer X)
  pub metas : List StreamMeta
  pub is_gpu : Bool
  pub cuda_device_id : ℤ
  pub ascend_frames : List (AscendBuffer X)
  pub is_ascend : Bool

abbrev pub is_empty {ℓ} : {A : Type ℓ} → List A → Bool
is_empty [] = true
is_empty (x ∷ xs) = false

abbrev pub differs : Bool → Bool → Bool
differs true b = not b
differs false b = b

-- `a >= b` on `int`.
abbrev pub int_geq : ℤ → ℤ → Bool
int_geq (pos a) (pos b) = leb b a
int_geq (pos a) (negsuc b) = true
int_geq (negsuc a) (pos b) = false
int_geq (negsuc a) (negsuc b) = leb a b

-- A frame that names no model gets the scheduler's.
abbrev pub name_model : String → StreamMeta → StreamMeta
name_model id meta = if str_eq meta.model_id "" then record meta { model_id = id } else meta

module _ {X : Type 0} where
  abbrev pub empty_batch : Batch X
  empty_batch = record {
    frames = [];
    gpu_frames = [];
    metas = [];
    is_gpu = false;
    cuda_device_id = pos 0;
    ascend_frames = [];
    is_ascend = false;
  }

  -- `Batch::size`
  abbrev pub size : Batch X → ℤ
  size b = pos (length b.metas)

  -- `type_mismatch`, which is asked of a batch that is not empty.
  unfoldable pub is_mismatch : Batch X → Frame X → Bool
  is_mismatch b f =
      not (is_empty b.metas)
      && (differs f.is_ascend b.is_ascend || (not f.is_ascend && differs f.is_gpu b.is_gpu))

  abbrev pub add_gpu : Batch X → GpuBuffer X → Batch X
  add_gpu b buf = record b {
    cuda_device_id = if is_empty b.gpu_frames then buf.cuda_device_id else b.cuda_device_id;
    gpu_frames = b.gpu_frames ++ buf ∷ [];
    is_gpu = true;
  }

  abbrev pub add_data : Batch X → Frame X → Batch X
  add_data b f =
      if f.is_ascend
      then record b { ascend_frames = b.ascend_frames ++ f.ascend_buf ∷ []; is_ascend = true }
      else if f.is_gpu
      then add_gpu b f.gpu_buf
      else record b { frames = b.frames ++ f.image ∷ [] }

  -- The frame joins the batch.
  unfoldable pub add_frame : String → Batch X → Frame X → Batch X
  add_frame id b f =
      let b' = add_data b f in record b' { metas = b'.metas ++ name_model id f.meta ∷ [] }
