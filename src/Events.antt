-- ===== src/Events.antt =====
-- tools/client/events.ts: the decoding of protocol events. The children: the data (Types), the
-- computations that may fail (Exec), words of ABI data (Words), the dynamic texts (Texts), the decoder of
-- each event (Opening, Deciding, Closing, Release), the whole decoder (Decode), and what is proved of it.
pub mod Types
pub mod Exec
pub mod Words
pub mod Texts
pub mod Opening
pub mod Deciding
pub mod Closing
pub mod Release
pub mod Decode
pub mod Signatures
pub mod Declared
pub mod Bounds
pub mod Sound
pub mod Whole
