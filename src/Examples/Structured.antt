-- ===== src/Examples/Structured.antt =====
-- The salvage and the ladder of repairs, at short answers.
use autonomous_agentic_platf.Prelude.{
  ℕ, zero, suc, ◌≡◌, refl, false, Option, none, some, List, [], ◌∷◌, length,
}
use autonomous_agentic_platf.Events.Emitter.{Text}
use autonomous_agentic_platf.Structured.Salvage.{
  Loads, loads, object, salvage_json, drop_trailing_commas,
}
use autonomous_agentic_platf.Structured.Embedded.{
  Pieces, done, char, string, braces, literal, escape, object_onto, well_formed,
}
use autonomous_agentic_platf.Structured.Fenced.{json, fenced, salvage_json-fenced}
use autonomous_agentic_platf.Structured.Sidecar.{strip_newlines, extract_code_and_sidecar}
use autonomous_agentic_platf.Structured.Contract.{
  contract_answer, extract_code_and_sidecar-contract_answer,
}
use autonomous_agentic_platf.Structured.Ladder.{
  Model, Validated, value, Message, system, human, read_response, call_structured, LadderOutcome,
}
use autonomous_agentic_platf.Structured.Accounts.{Accounted, call_structured-Accounted}
use autonomous_agentic_platf.Structured.Repairs.{Converses, call_structured-Converses}

-- `{"}\"":{}}`, whose string holds a brace and a quote.
abbrev pieces : Pieces
pieces = string (literal 125 ∷ escape 34 ∷ []) (char 58 (braces done done))

abbrev always_loads : Text → Loads
always_loads text = loads

-- The prose in front of the fence has a brace.
salvage_json-fenced_example :
    salvage_json always_loads (123 ∷ 105 ∷ fenced json (object_onto pieces (10 ∷ [])) (33 ∷ []))
    ≡ object (object_onto pieces [])
unfolding well_formed
salvage_json-fenced_example =
    salvage_json-fenced always_loads (123 ∷ 105 ∷ []) json pieces (10 ∷ []) (33 ∷ []) refl refl refl
      refl

-- A model that answers `no` first and `{}` then, and a schema that takes everything.
abbrev answer : ℕ → Text
answer zero = 110 ∷ 111 ∷ []
answer (suc n) = 123 ∷ 125 ∷ []

abbrev second_try : Model
second_try attempt messages = some (record {
  content = answer attempt;
  input_tokens = some 7;
  output_tokens = none;
  prompt_eval_count = some 1;
  eval_count = some 2;
})

abbrev any_value : Text → Validated Text
any_value payload = value payload

abbrev ran : List (List Message) × LadderOutcome Text
ran = call_structured second_try always_loads any_value [] [] 1

call_structured-Accounted_example :
    Accounted second_try (read_response always_loads any_value) 1 0 0 ran.0 ran.1
call_structured-Accounted_example =
    call_structured-Accounted second_try always_loads any_value [] [] 1

call_structured-Converses_example :
    Converses second_try
      (read_response always_loads any_value)
      []
      []
      0
      (system [] ∷ human [] ∷ [])
      ran.0
call_structured-Converses_example =
    call_structured-Converses second_try always_loads any_value [] [] 1

-- It takes two calls.
two_calls : length ran.0 ≡ 2
unfolding call_structured
two_calls = refl

-- A trailing comma is dropped from a string as well: `{"a":",]"}` becomes `{"a":"]"}`.
comma_in_string :
    drop_trailing_commas (123 ∷ 34 ∷ 97 ∷ 34 ∷ 58 ∷ 34 ∷ 44 ∷ 93 ∷ 34 ∷ 125 ∷ [])
    ≡ 123 ∷ 34 ∷ 97 ∷ 34 ∷ 58 ∷ 34 ∷ 93 ∷ 34 ∷ 125 ∷ []
unfolding drop_trailing_commas
comma_in_string = refl

-- A parser of JSON that reads a 7.
abbrev seven_dict : Text → Option ℕ
seven_dict payload = some 7

-- An answer of the coder: `x` in Python, and `pieces` in JSON.
extract_code_and_sidecar-contract_answer_example :
    extract_code_and_sidecar always_loads seven_dict
      (λ t. false)
      (λ t. t)
      (contract_answer
        (123 ∷ [])
        (120 ∷ 10 ∷ [])
        (10 ∷ [])
        (object_onto pieces (10 ∷ []))
        (33 ∷ []))
    ≡ some (some (strip_newlines (120 ∷ 10 ∷ [])), some 7)
unfolding well_formed
extract_code_and_sidecar-contract_answer_example =
    extract_code_and_sidecar-contract_answer always_loads seven_dict (λ t. false) (λ t. t) 120
      (123 ∷ []) (10 ∷ []) (10 ∷ []) pieces (10 ∷ []) (33 ∷ []) 7 refl refl refl refl refl refl refl
      refl refl
