-- ===== src/Gate.antt =====
-- `validate_source` of backend/app/services/validator.py: the static gate on a generated program.
-- The syntax tree is that of Python's `ast`, with the node kinds that the gate looks at and
-- `other` for the rest; the parser is a parameter.
pub mod Modules
pub mod Tree
pub mod Findings
pub mod Audit
pub mod Walk
pub mod Permitted
pub mod Clean
pub mod Mentions
pub mod Accepts
pub mod Verdict
