-- ===== src/Structured/Repairs.antt =====
-- What the ladder of repairs says to the model.
use autonomous_agentic_platf.Prelude.{
  ℕ, zero, suc, ◌+◌, ◌≡◌, inl, inr, some, List, [], ◌∷◌, Option-cases,
}
use autonomous_agentic_platf.Events.Emitter.{Text}
use autonomous_agentic_platf.Engine.State.{Usage, no_usage}
use autonomous_agentic_platf.Structured.Salvage.{Loads}
use autonomous_agentic_platf.Structured.Accounts.{reading_cases}
use autonomous_agentic_platf.Structured.Ladder.{
  Errors, Message, system, human, Validated, Reading, unusable, Response, read_response,
  repair_messages, add_usage, usage_from_response, Model, attempts_from, call_structured,
}

-- The calls from an attempt on, of which the first says `messages`: each further one is the repair
-- that quotes what the model answered to the call before it, which was unusable, and its errors.
pub data Converses {T : Type 0} (llm : Model) (read : Text → Reading T)
    (system_text user_text : Text) : ℕ → List Message → List (List Message) → Type 0 where
  last_call :
      (attempt : ℕ) (messages : List Message)
      → Converses llm read system_text user_text attempt messages (messages ∷ [])
  repaired :
      (attempt : ℕ) (messages : List Message) (response : Response) (errors : Errors)
      (calls : List (List Message))
      → llm attempt messages ≡ some response
      → read response.content ≡ unusable errors
      → Converses llm read system_text user_text
          (attempt + 1)
          (repair_messages system_text user_text response.content errors)
          calls
      → Converses llm read system_text user_text attempt messages (messages ∷ calls)

attempts_from-Converses :
    {T : Type 0} (llm : Model) (read : Text → Reading T) (system_text user_text : Text)
    (repairs attempt : ℕ) (messages : List Message) (usage : Usage)
    → let (calls, outcome) =
        attempts_from llm read system_text user_text repairs attempt messages usage in
      Converses llm read system_text user_text attempt messages calls
unfolding attempts_from
attempts_from-Converses llm read system_text user_text zero attempt messages usage =
    last_call attempt messages
attempts_from-Converses llm read system_text user_text (suc repairs) attempt messages usage =
    elim (Option-cases (llm attempt messages)) [
      | inl eo ↦ rw eo (last_call attempt messages)
      | inr (r, eo) ↦ elim (reading_cases (read r.content)) [
        | inl (v, er) ↦ rw (eo, er) (last_call attempt messages)
        | inr (inl (errors, er)) ↦
            rw (eo, er)
              (repaired attempt messages r errors _ eo er (
                attempts_from-Converses llm read system_text user_text repairs (attempt + 1)
                  (repair_messages system_text user_text r.content errors)
                  (add_usage usage (usage_from_response r))))
        | inr (inr er) ↦ rw (eo, er) (last_call attempt messages)
      ]
    ]

-- The first call of a structured call says the two texts of the request, and each that follows
-- says the request, the content that the model answered to the call just before it, and the
-- errors of that very content, which was unusable.
pub call_structured-Converses :
    {T : Type 0} (llm : Model) (json_loads : Text → Loads) (validate : Text → Validated T)
    (system_text user_text : Text) (max_repairs : ℕ)
    → let (calls, outcome) =
        call_structured llm json_loads validate system_text user_text max_repairs in
      Converses llm
        (read_response json_loads validate)
        system_text
        user_text
        0
        (system system_text ∷ human user_text ∷ [])
        calls
unfolding call_structured
call_structured-Converses llm json_loads validate system_text user_text max_repairs =
    attempts_from-Converses llm (read_response json_loads validate) system_text user_text
      max_repairs 0 (system system_text ∷ human user_text ∷ []) no_usage
