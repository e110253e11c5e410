-- ===== src/Async.antt =====
-- lib/source/Sockets/Async: what lies above the streams of the asynchronous engine.
pub mod Counter
pub mod BufferChain
pub mod WriteQueue
pub mod TlsStream
pub mod LinuxStream
mod Tests
