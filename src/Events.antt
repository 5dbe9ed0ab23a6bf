-- ===== src/Events.antt =====
-- backend/app/engine/events.py: what the engine writes to the durable log of a run.
pub mod Emitter
pub mod Lines
pub mod Entries
