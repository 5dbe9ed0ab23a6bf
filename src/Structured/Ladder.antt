-- ===== src/Structured/Ladder.antt =====
-- `call_structured`: the answer of a model that fits the schema, with repairs. Streaming and
-- `ainvoke` both give a whole message, so a call is one step. The schema that is bound for
-- constrained decoding and the metrics are left out.
use autonomous_agentic_platf.Prelude.{ℕ, zero, suc, ◌+◌, Option, none, some, List, [], ◌∷◌, or_else}
use autonomous_agentic_platf.Events.Emitter.{Text}
use autonomous_agentic_platf.Engine.State.{Usage, no_usage}
use autonomous_agentic_platf.Structured.Salvage.{
  Loads, Salvaged, object, no_object, raised, salvage_json,
}

-- What is said to the model; `repair` is `_repair_prompt` on the errors.
pub data Errors : Type 0 where
  no_json_object : Errors
  field_errors : (errors : Text) → Errors

pub data Message : Type 0 where
  system human ai : (content : Text) → Message
  repair : (errors : Errors) → Message

-- A response: its text, and the counts of `usage_metadata` and of `response_metadata`.
pub record Response : Type 0 where
  pub content : Text
  pub input_tokens : Option ℕ
  pub output_tokens : Option ℕ
  pub prompt_eval_count : Option ℕ
  pub eval_count : Option ℕ

abbrev pub first_present : Option ℕ → Option ℕ → ℕ
first_present none other = or_else other 0
first_present (some count) other = count

-- `usage_from_response`
abbrev pub usage_from_response : Response → Usage
usage_from_response response = record {
  tokens_in = first_present response.input_tokens response.prompt_eval_count;
  tokens_out = first_present response.output_tokens response.eval_count;
  llm_calls = 1;
  node_visits = 0;
  sandbox_executions = 0;
  started_at = none;
}

-- `_merge`
abbrev pub add_usage : Usage → Usage → Usage
add_usage current new = record {
  tokens_in = current.tokens_in + new.tokens_in;
  tokens_out = current.tokens_out + new.tokens_out;
  llm_calls = current.llm_calls + new.llm_calls;
  node_visits = 0;
  sandbox_executions = 0;
  started_at = none;
}

-- What `model_validate_json` does with a payload.
pub data Validated (T : Type 0) : Type 0 where
  value : (v : T) → Validated T
  invalid : (errors : Text) → Validated T

-- What one response comes to.
pub data Reading (T : Type 0) : Type 0 where
  usable : (v : T) → Reading T
  unusable : (errors : Errors) → Reading T
  reading_raises : Reading T

-- `LLMResult`, `StructuredOutputError`, or another exception, of the model or of `salvage_json`.
pub data LadderOutcome (T : Type 0) : Type 0 where
  result : (v : T) (usage : Usage) (attempts : ℕ) (raw : Text) → LadderOutcome T
  exhausted : (errors : Errors) (raw : Text) → LadderOutcome T
  other_exception : LadderOutcome T

abbrev pub read_validated : {T : Type 0} → Validated T → Reading T
read_validated (value v) = usable v
read_validated (invalid errors) = unusable (field_errors errors)

abbrev pub payload_reading : {T : Type 0} → (Text → Validated T) → Salvaged → Reading T
payload_reading validate (object payload) = read_validated (validate payload)
payload_reading validate no_object = unusable no_json_object
payload_reading validate raised = reading_raises

-- The body of the loop up to the test of the attempt.
unfoldable pub read_response :
    {T : Type 0} → (Text → Loads) → (Text → Validated T) → Text → Reading T
unfolding salvage_json
read_response json_loads validate raw = payload_reading validate (salvage_json json_loads raw)

abbrev pub repair_messages : Text → Text → Text → Errors → List Message
repair_messages system_text user_text raw errors =
    system system_text ∷ human user_text ∷ ai raw ∷ repair errors ∷ []

-- What one turn of the loop comes to.
pub data Try (T : Type 0) : Type 0 where
  answered : (v : T) (response : Response) → Try T
  failed : (errors : Errors) (response : Response) → Try T
  try_raises : Try T

abbrev pub judged : {T : Type 0} → Reading T → Response → Try T
judged (usable v) response = answered v response
judged (unusable errors) response = failed errors response
judged reading_raises response = try_raises

abbrev pub try_response : {T : Type 0} → (Text → Reading T) → Option Response → Try T
try_response read none = try_raises
try_response read (some response) = judged (read response.content) response

-- The end of the loop at an attempt.
abbrev pub end_of_loop : {T : Type 0} → Try T → ℕ → Usage → LadderOutcome T
end_of_loop (answered v response) attempt usage =
    result v (add_usage usage (usage_from_response response)) (attempt + 1) response.content
end_of_loop (failed errors response) attempt usage = exhausted errors response.content
end_of_loop try_raises attempt usage = other_exception

-- A turn that is not the last: one that failed is followed by others.
abbrev pub continued :
    {T : Type 0}
    → Try T
    → ℕ
    → List Message
    → Usage
    → (Errors → Response → List (List Message) × LadderOutcome T)
    → List (List Message) × LadderOutcome T
continued (failed errors response) attempt messages usage next =
    let (calls, outcome) = next errors response in (messages ∷ calls, outcome)
continued (answered v response) attempt messages usage next =
    (messages ∷ [], end_of_loop (answered v response) attempt usage)
continued try_raises attempt messages usage next = (messages ∷ [], other_exception)

-- A model answers by the attempt and the messages, none where it raises.
abbrev pub Model : Type 0
Model = ℕ → List Message → Option Response

-- The loop from an attempt on, with the number of repairs that are left: the messages of the calls
-- it makes, and what it comes to.
unfoldable pub attempts_from :
    {T : Type 0}
    → Model
    → (Text → Reading T)
    → Text
    → Text
    → ℕ
    → ℕ
    → List Message
    → Usage
    → List (List Message) × LadderOutcome T
attempts_from llm read system_text user_text zero attempt messages usage =
    (messages ∷ [], end_of_loop (try_response read (llm attempt messages)) attempt usage)
attempts_from llm read system_text user_text (suc repairs) attempt messages usage =
    continued (try_response read (llm attempt messages)) attempt messages usage (λ errors response.
      attempts_from llm read system_text user_text repairs (attempt + 1)
        (repair_messages system_text user_text response.content errors)
        (add_usage usage (usage_from_response response)))

-- `call_structured`
unfoldable pub call_structured :
    {T : Type 0}
    → Model
    → (Text → Loads)
    → (Text → Validated T)
    → Text
    → Text
    → ℕ
    → List (List Message) × LadderOutcome T
unfolding attempts_from read_response
call_structured llm json_loads validate system_text user_text max_repairs =
    attempts_from llm (read_response json_loads validate) system_text user_text max_repairs 0
      (system system_text ∷ human user_text ∷ []) no_usage
