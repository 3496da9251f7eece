-- ===== src/Producer.antt =====
-- Producer.cpp and Producer.h: a message is published, and the connection is closed.
pub mod Handlers
pub mod Publishing
pub mod Waiting
pub mod Ending
pub mod Cleanup
mod Tests
