-- ===== src/Stream.antt =====
-- Parts of src/stream: the health of the streams, the choice of a GPU, and the frame buffers.
pub mod Health
pub mod Devices
mod Samples
