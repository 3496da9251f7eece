-- ===== src/Runtime.antt =====
-- The state that Connection.cpp and Consumer.cpp work on, and what they use of uAMQP and PHP.
pub mod Library
pub mod State
pub mod Runs
pub mod Keeps
