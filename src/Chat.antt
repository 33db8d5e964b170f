-- ===== src/Chat.antt =====
-- ChatServer: the sessions of the chat server.
pub mod Frame
pub mod Reader
pub mod SendQueue
pub mod Users
pub mod Handlers
pub mod Registry
pub mod LogicQueue
pub mod Tests
