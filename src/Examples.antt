-- ===== src/Examples.antt =====
-- Runs of the models on small inputs: each property at an input that meets its hypotheses.
mod Engine
mod Election
mod CommandLog
mod Wire
mod Framing
mod Message
mod Replicator
mod Wal
mod Storage
mod Transport
