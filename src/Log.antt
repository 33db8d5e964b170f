-- ===== src/Log.antt =====
-- framework/AsyncLog: the asynchronous logger. Numbers become text, text goes to the buffer of a
-- line, and lines go through shared buffers to the file.
pub mod Numbers
pub mod FixedBuffer
pub mod Stream
pub mod Async
pub mod File
pub mod Tests
