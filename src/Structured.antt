-- ===== src/Structured.antt =====
-- backend/app/engine/structured.py: the JSON object in a model's answer (Salvage), the blocks of the
-- coder (Sidecar) and the ladder of repairs (Ladder). A text is the list of its code points;
-- `json.loads`, the schema, the parser and the model are arguments.
pub mod Salvage
pub mod Embedded
pub mod Fenced
pub mod Ladder
pub mod Accounts
pub mod Repairs
pub mod Sidecar
pub mod Contract
