-- ===== src/Message.antt =====
-- Message.cpp, Message.h and AmqpValueBodyDecoder.cpp: the message that PHP holds.
pub mod Getters
pub mod Types
pub mod Library
pub mod State
pub mod Body
mod Gives
mod Quiet
pub mod Kept
mod Storing
mod Copying
mod Creating
pub mod Atomic
pub mod Identified
mod IdTests
pub mod Owning
pub mod Sharing
pub mod Setters
pub mod Nested
pub mod Reading
pub mod Copies
pub mod Content
pub mod Samples
mod Tests
pub mod Php
pub mod Metadata
pub mod Setting
