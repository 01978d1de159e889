-- ===== src/Vm/Save.antt =====
-- src/vm/SaveVariable.cpp: the text format of saved values, its writer and its two readers.
pub mod Format
pub mod Write
pub mod Read
pub mod Restore
pub mod Values
pub mod Pieces
pub mod Heads
pub mod Steps
pub mod RoundTrip
pub mod TopLevel
pub mod Stuck
