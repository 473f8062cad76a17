-- ===== src/Wire.antt =====
-- The wire protocol: byte order, frames, and the assembler of frames from a stream.
pub mod ErrorCode
pub mod ByteOrder
pub mod FrameCodec
pub mod FrameAssembler
pub mod Body
pub mod Messages
mod Runs
