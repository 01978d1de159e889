-- ===== src/Scheduler.antt =====
-- src/scheduler/Scheduler.cpp: call_outs, heart beats, resets and clean-ups.
pub mod State
pub mod CallOuts
pub mod Heartbeats
pub mod Resets
pub mod Loop
