-- ===== src/Tests.antt =====
-- Concrete runs of the models, and the theorems at concrete inputs.
mod Layout
mod Replay
mod Restart
mod Health
mod Auth
mod Attach
mod Cli
mod Clients
mod Engine
mod Supervision
mod Persistence
mod Queries
