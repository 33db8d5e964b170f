-- ===== src/Net.antt =====
-- framework/MyMuduo: the reactor. A channel per descriptor, the poller that tells the kernel about
-- it, the buffers of a connection, and the connection itself.
pub mod Buffer
pub mod Channel
pub mod Poller
pub mod Connection
pub mod LoopPool
pub mod EventLoop
pub mod Tests
