-- ===== src/Engine/NodeName.antt =====
-- The names under which backend/app/engine/graph.py (lines 101 to 111) adds its nodes.
pub data NodeName : Type 0 where
  init sandbox_exec mlops finalizer planner researcher coder debugger evaluator reporter : NodeName
