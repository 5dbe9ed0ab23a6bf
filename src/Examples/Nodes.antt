-- ===== src/Examples/Nodes.antt =====
-- The theorems on the envelope and the nodes, at concrete inputs.
use autonomous_agentic_platf.Prelude.{
  ℕ, ◌≤◌, String, ◌≡◌, none, List, [], ◌∷◌, leb, if◌then◌else◌, count_if, ℤ, pos,
}
use autonomous_agentic_platf.Engine.State.{Update, no_update, planning, RetrievedChunk}
use autonomous_agentic_platf.Engine.Nodes.Envelope.{
  retry_then_report, Attempt, returned, raised, run_node, attempts_of,
}
use autonomous_agentic_platf.Engine.Nodes.Envelope.Exact.{HandsOver, run_node-HandsOver}
use autonomous_agentic_platf.Engine.Nodes.Envelope.Lifecycle.{
  run_node-events, is_started, is_failed, is_completed, handed_over,
}

abbrev empty_update : Update ℤ
empty_update = no_update

-- Fails once, then returns.
abbrev second_time : ℕ → Attempt ℤ
second_time k = if leb k 1 then raised else returned no_update

run_node-HandsOver_example :
    HandsOver retry_then_report planning none second_time 1 3
      (run_node retry_then_report planning none 2 second_time).update
run_node-HandsOver_example = run_node-HandsOver retry_then_report planning none second_time 2

run_node-events_example :
    let exit = run_node retry_then_report planning none 2 second_time in
    (count_if is_started exit.events ≡ 1)
    × (count_if is_failed exit.events ≤ attempts_of retry_then_report 2)
    × (count_if is_completed exit.events ≡ handed_over exit.update)
run_node-events_example = run_node-events retry_then_report planning none second_time 2

abbrev chunk_at : String → RetrievedChunk ℤ
chunk_at point = record {
  point_id = point;
  collection = "docs";
  score = pos 50;
  source_uri = "guide";
  text = "";
}

abbrev three_chunks : List (RetrievedChunk ℤ)
three_chunks = chunk_at "1" ∷ chunk_at "2" ∷ chunk_at "3" ∷ []
