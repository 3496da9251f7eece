-- ===== src/Consumer.antt =====
-- Consumer.cpp: the callbacks that uAMQP makes, and the methods of the consumer. Trace records and
-- their metadata are left out: they change no state.
pub mod Handlers
pub mod Dispatching
pub mod Closing
pub mod Induction
pub mod Answering
pub mod Contained
