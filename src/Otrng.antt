-- ===== src/Otrng.antt =====
-- src/otrng.c and src/protocol.c: the messages of a conversation.
pub mod Receive
pub mod Send
pub mod Exchange
pub mod Conversation
pub mod Forgery
mod Tests
pub mod Delivery
pub mod Sequence
pub mod Handshake
pub mod Authenticate
pub mod Handlers
pub mod Outcome
pub mod States
