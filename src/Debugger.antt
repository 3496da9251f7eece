-- ===== src/Debugger.antt =====
-- debugging/subscription_consumer.cpp: the receive debugger, its command line first.
-- Messages on the error stream are not modelled; `std::exit(0)` after `--help` is an outcome.
pub mod Percent
pub mod Number
pub mod Endpoint
pub mod Address
pub mod Options
pub mod Accepted
pub mod Receiving
pub mod Rounds
mod RunTests
mod Tests
