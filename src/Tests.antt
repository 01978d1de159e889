-- ===== src/Tests.antt =====
-- Runs of the code on concrete inputs, and the theorems at such inputs.
mod Text
mod Saved
mod Objects
mod Scheduled
mod Owners
mod Configured
mod Compiled
mod Connected
mod Dumped
mod Placed
mod Replaced
mod Bound
