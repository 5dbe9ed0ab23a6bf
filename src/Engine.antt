-- ===== src/Engine.antt =====
-- backend/app/engine: the agent graph, its state, its routers and its nodes.
pub mod State
pub mod Errors
pub mod NodeName
pub mod Routing
pub mod Criteria
pub mod Evaluator
pub mod Nodes
pub mod Graph
