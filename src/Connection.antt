-- ===== src/Connection.antt =====
-- Connection.cpp: connecting, closing, and the methods that PHP calls. `publish`
-- and the trace records are in modules of their own.
pub mod Logger
pub mod Configured
pub mod Objects
pub mod Opening
pub mod Reopening
pub mod Lifecycle
pub mod Methods
pub mod Reentrancy
pub mod Batch
pub mod Pending
pub mod Release
pub mod Tests
pub mod Stopped
pub mod Traced
pub mod Shutdown
pub mod Active
pub mod Keeping
pub mod Cleanup
pub mod Running
pub mod Run
