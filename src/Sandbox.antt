-- ===== src/Sandbox.antt =====
-- `DockerSandboxDriver` of backend/app/services/sandbox.py: waiting for the exit of a container
-- (Await), the captured output (Logs) and one execution (Execute). What the daemon, the disk and
-- the clock answer are arguments.
pub mod Await
pub mod Bounded
pub mod Logs
pub mod Capped
pub mod Execute
pub mod Bracketed
pub mod Contained
