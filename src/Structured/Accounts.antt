-- ===== src/Structured/Accounts.antt =====
-- What the ladder of repairs calls and counts.
use autonomous_agentic_platf.Prelude.{
  ℕ, zero, suc, ◌+◌, ◌≤◌, ◌≡◌, refl, ap, ◌⊎◌, inl, inr, Option, none, some, List, [], ◌∷◌, ◌++◌,
  arith, length,
}
use autonomous_agentic_platf.Events.Emitter.{Text}
use autonomous_agentic_platf.Engine.State.{Usage, no_usage}
use autonomous_agentic_platf.Structured.Salvage.{Loads}
use autonomous_agentic_platf.Structured.Ladder.{
  Errors, Message, system, human, Response, Validated, Reading, usable, unusable, reading_raises,
  try_response, judged, end_of_loop, continued, LadderOutcome, result, exhausted, other_exception,
  read_response, repair_messages, add_usage, usage_from_response, Model, attempts_from,
  call_structured,
}

-- The call with these messages, at this attempt, is the last of those made from `attempt` on.
abbrev pub LastCall : ℕ → List (List Message) → ℕ → List Message → Type 0
LastCall attempt calls n messages =
    ((before : List (List Message)) × (calls ≡ before ++ messages ∷ []))
    × (n + 1 ≡ attempt + length calls)

-- The model answered the last call with this text, which reads so.
abbrev pub LastAnswer :
    {T : Type 0} → Model → (Text → Reading T) → ℕ → List (List Message) → Text → Reading T → Type 0
LastAnswer llm read attempt calls raw reading =
    (n : ℕ) × ((messages : List Message) × ((response : Response) × (LastCall attempt calls n
            messages
          × ((llm n messages ≡ some response)
              × ((response.content ≡ raw) × (read raw ≡ reading))))))

-- What an outcome says of the calls that were made from an attempt on, with `repairs` left.
abbrev pub Accounted :
    {T : Type 0}
    → Model
    → (Text → Reading T)
    → ℕ
    → ℕ
    → ℕ
    → List (List Message)
    → LadderOutcome T
    → Type 0
Accounted llm read repairs attempt used calls (result v usage attempts raw) =
    (attempts ≡ attempt + length calls)
    × ((usage.llm_calls ≡ used + length calls)
        × ((length calls ≤ repairs + 1) × LastAnswer llm read attempt calls raw (usable v)))
Accounted llm read repairs attempt used calls (exhausted errors raw) =
    (length calls ≡ repairs + 1) × LastAnswer llm read attempt calls raw (unusable errors)
Accounted llm read repairs attempt used calls other_exception =
    (length calls ≤ repairs + 1)
    × (((n : ℕ) × ((messages : List Message) × (LastCall attempt calls n messages
              × (llm n messages ≡ none))))
        ⊎ ((raw : Text) × LastAnswer llm read attempt calls raw reading_raises))

pub reading_cases :
    {T : Type 0} (x : Reading T)
    → ((v : T) × (x ≡ usable v))
      ⊎ (((errors : Errors) × (x ≡ unusable errors)) ⊎ (x ≡ reading_raises))
reading_cases (usable v) = inl (v, refl)
reading_cases (unusable errors) = inr (inl (errors, refl))
reading_cases reading_raises = inr (inr refl)

later_call :
    (attempt n : ℕ) (first messages : List Message) (calls : List (List Message))
    → LastCall (attempt + 1) calls n messages
    → LastCall attempt (first ∷ calls) n messages
later_call attempt n first messages calls ((before, e), h) =
    ((first ∷ before, ap (λ rest. first ∷ rest) e), omega arith)

later_answer :
    {T : Type 0} (llm : Model) (read : Text → Reading T) (attempt : ℕ) (first : List Message)
    (calls : List (List Message)) (raw : Text) (reading : Reading T)
    → LastAnswer llm read (attempt + 1) calls raw reading
    → LastAnswer llm read attempt (first ∷ calls) raw reading
later_answer llm read attempt first calls raw reading (n, (messages, (r, (last, h)))) =
    (n, (messages, (r, (later_call attempt n first messages calls last, h))))

only_call :
    (attempt : ℕ) (messages : List Message) → LastCall attempt (messages ∷ []) attempt messages
only_call attempt messages = (([], refl), omega arith)

only_answer :
    {T : Type 0} (llm : Model) (read : Text → Reading T) (attempt : ℕ) (messages : List Message)
    (r : Response) (reading : Reading T)
    → llm attempt messages ≡ some r
    → read r.content ≡ reading
    → LastAnswer llm read attempt (messages ∷ []) r.content reading
only_answer llm read attempt messages r reading eo er =
    (attempt, (messages, (r, (only_call attempt messages, (eo, (refl, er))))))

-- A turn that failed, in front of what the rest of the loop comes to.
one_more :
    {T : Type 0} (llm : Model) (read : Text → Reading T) (repairs attempt used : ℕ)
    (messages : List Message) (calls : List (List Message)) (outcome : LadderOutcome T)
    → Accounted llm read repairs (attempt + 1) (used + 1) calls outcome
    → Accounted llm read (suc repairs) attempt used (messages ∷ calls) outcome
one_more llm read repairs attempt used messages calls (result v usage attempts raw)
      (ha, (hu, (hl, hr))) =
    (
      omega arith,
      (omega arith, (omega arith, later_answer llm read attempt messages calls raw (usable v) hr)),
    )
one_more llm read repairs attempt used messages calls (exhausted errors raw) (hl, hr) =
    (omega arith, later_answer llm read attempt messages calls raw (unusable errors) hr)
one_more llm read repairs attempt used messages calls other_exception
      (hl, inl (n, (m, (last, h)))) =
    (omega arith, inl (n, (m, (later_call attempt n messages m calls last, h))))
one_more llm read repairs attempt used messages calls other_exception (hl, inr (raw, h)) =
    (omega arith, inr (raw, later_answer llm read attempt messages calls raw reading_raises h))

-- The last turn, by what the answer reads as.
judged-Accounted :
    {T : Type 0} (llm : Model) (read : Text → Reading T) (attempt : ℕ) (messages : List Message)
    (usage : Usage) (r : Response) (reading : Reading T)
    → llm attempt messages ≡ some r
    → read r.content ≡ reading
    → Accounted llm read 0 attempt usage.llm_calls
        (messages ∷ [])
        (end_of_loop (judged reading r) attempt usage)
judged-Accounted llm read attempt messages usage r (usable v) eo er =
    (refl, (refl, (omega arith, only_answer llm read attempt messages r (usable v) eo er)))
judged-Accounted llm read attempt messages usage r (unusable errors) eo er =
    (refl, only_answer llm read attempt messages r (unusable errors) eo er)
judged-Accounted llm read attempt messages usage r reading_raises eo er =
    (omega arith, inr (r.content, only_answer llm read attempt messages r reading_raises eo er))

tried-Accounted :
    {T : Type 0} (llm : Model) (read : Text → Reading T) (attempt : ℕ) (messages : List Message)
    (usage : Usage) (answer : Option Response)
    → llm attempt messages ≡ answer
    → Accounted llm read 0 attempt usage.llm_calls
        (messages ∷ [])
        (end_of_loop (try_response read answer) attempt usage)
tried-Accounted llm read attempt messages usage none eo =
    (omega arith, inl (attempt, (messages, (only_call attempt messages, eo))))
tried-Accounted llm read attempt messages usage (some r) eo =
    judged-Accounted llm read attempt messages usage r (read r.content) eo refl

-- A turn that others may follow: `next` is what follows one that failed.
judged-continued :
    {T : Type 0} (llm : Model) (read : Text → Reading T) (repairs attempt : ℕ)
    (messages : List Message) (usage : Usage)
    (next : Errors → Response → List (List Message) × LadderOutcome T) (r : Response)
    (reading : Reading T)
    → ((errors : Errors)
        → Accounted llm read repairs
            (attempt + 1)
            (usage.llm_calls + 1)
            (next errors r).0
            (next errors r).1)
    → llm attempt messages ≡ some r
    → read r.content ≡ reading
    → Accounted llm read
        (suc repairs)
        attempt
        usage.llm_calls
        (continued (judged reading r) attempt messages usage next).0
        (continued (judged reading r) attempt messages usage next).1
judged-continued llm read repairs attempt messages usage next r (usable v) h eo er =
    (refl, (refl, (omega arith, only_answer llm read attempt messages r (usable v) eo er)))
judged-continued llm read repairs attempt messages usage next r (unusable errors) h eo er =
    one_more llm read repairs attempt usage.llm_calls messages (next errors r).0 (next errors r).1
      (h errors)
judged-continued llm read repairs attempt messages usage next r reading_raises h eo er =
    (omega arith, inr (r.content, only_answer llm read attempt messages r reading_raises eo er))

tried-continued :
    {T : Type 0} (llm : Model) (read : Text → Reading T) (repairs attempt : ℕ)
    (messages : List Message) (usage : Usage)
    (next : Errors → Response → List (List Message) × LadderOutcome T) (answer : Option Response)
    → ((errors : Errors) (r : Response)
        → Accounted llm read repairs
            (attempt + 1)
            (usage.llm_calls + 1)
            (next errors r).0
            (next errors r).1)
    → llm attempt messages ≡ answer
    → Accounted llm read
        (suc repairs)
        attempt
        usage.llm_calls
        (continued (try_response read answer) attempt messages usage next).0
        (continued (try_response read answer) attempt messages usage next).1
tried-continued llm read repairs attempt messages usage next none h eo =
    (omega arith, inl (attempt, (messages, (only_call attempt messages, eo))))
tried-continued llm read repairs attempt messages usage next (some r) h eo =
    judged-continued llm read repairs attempt messages usage next r (read r.content)
      (λ errors. h errors r) eo refl

attempts_from-Accounted :
    {T : Type 0} (llm : Model) (read : Text → Reading T) (system_text user_text : Text)
    (repairs attempt : ℕ) (messages : List Message) (usage : Usage)
    → let (calls, outcome) =
        attempts_from llm read system_text user_text repairs attempt messages usage in
      Accounted llm read repairs attempt usage.llm_calls calls outcome
unfolding attempts_from
attempts_from-Accounted llm read system_text user_text zero attempt messages usage =
    tried-Accounted llm read attempt messages usage (llm attempt messages) refl
attempts_from-Accounted llm read system_text user_text (suc repairs) attempt messages usage =
    tried-continued llm read repairs attempt messages usage _ (llm attempt messages)
      (λ errors r.
        attempts_from-Accounted llm read system_text user_text repairs (attempt + 1)
          (repair_messages system_text user_text r.content errors)
          (add_usage usage (usage_from_response r)))
      refl

-- A structured call with max_repairs repairs comes to one of three ends. It returns the content
-- that the model answered to the last of its calls, with a value that the schema made of the
-- payload in it, after as many calls as it counts as attempts and in its usage, and at most
-- max_repairs + 1 calls. Or it gives up after exactly max_repairs + 1 calls, with the content
-- that the model answered to the last of them, and the errors of that very content. Or it raises
-- otherwise, within max_repairs + 1 calls, and then the model raised at the last of the calls
-- made, or the parser on the answer to it.
pub call_structured-Accounted :
    {T : Type 0} (llm : Model) (json_loads : Text → Loads) (validate : Text → Validated T)
    (system_text user_text : Text) (max_repairs : ℕ)
    → let (calls, outcome) =
        call_structured llm json_loads validate system_text user_text max_repairs in
      Accounted llm (read_response json_loads validate) max_repairs 0 0 calls outcome
unfolding call_structured
call_structured-Accounted llm json_loads validate system_text user_text max_repairs =
    attempts_from-Accounted llm (read_response json_loads validate) system_text user_text
      max_repairs 0 (system system_text ∷ human user_text ∷ []) no_usage
