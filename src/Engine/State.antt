-- ===== src/Engine/State.antt =====
-- backend/app/engine/state.py: the channels of the agent graph.
mod Enums
mod Records
mod Channels
mod Steps
mod PlanCheck
pub mod History
pub mod Progress
pub use Enums.*
pub use Records.*
pub use Channels.{Seed, AgentState, Update, last_write_wins, append, no_update, fresh}
unfoldable pub use Channels.{merge_usage, merge_step_status, apply_update}
pub use Steps.{dependencies_satisfied, is_satisfied}
unfoldable pub use Steps.{plan_step, status_of, first_pending, next_pending_step, refine_cycles}
pub use PlanCheck.{PlanError, unknown_steps, later_step}
unfoldable pub use PlanCheck.{check_steps, acyclic_and_ordered}
