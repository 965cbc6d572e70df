-- ===== src/Tests.antt =====
-- Concrete runs of the definitions, and the theorems at inputs that meet their hypotheses.
mod Connections
mod Interleavings
mod Messages
mod Runs
mod Samples
mod Talk
mod Race
mod Copying
mod Sending
