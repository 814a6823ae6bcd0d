-- ===== src/Codec.antt =====
-- network/codec/mTcpCodec.hpp, network/codec/IMessageCodec.hpp and protocol/mTcpProto.h: the frames
-- that carry messages over a byte stream. A byte is a number; `Header` lays a frame header out,
-- `Encoder` and `Decoder` are EncodeSync and DecodeSync, and the other children are proofs.
pub mod Header
pub mod Encoder
pub mod Decoder
pub mod Frames
pub mod Runs
pub mod RoundTrip
pub mod Stream
pub mod Refusals
pub mod Progress
pub mod Memory
pub mod Passthrough
mod Tests
