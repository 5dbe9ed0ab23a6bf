-- ===== src/Engine/Nodes.antt =====
-- backend/app/engine/nodes: the envelope that every node shares, and the nodes' bodies.
pub mod Envelope
pub mod SandboxExec
pub mod Debugger
pub mod Researcher
pub mod Planner
pub mod Coder
pub mod Reporter
