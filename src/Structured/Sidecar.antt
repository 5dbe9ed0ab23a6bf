-- ===== src/Structured/Sidecar.antt =====
-- `extract_code_and_sidecar`: the two blocks of the coder's answer. The sidecar is none where the
-- code gives an empty dict.
use autonomous_agentic_platf.Prelude.{
  ℕ, zero, suc, Bool, not, ◌&&◌, Option, none, some, List, [], ◌∷◌, reverse, ◌==◌, if◌then◌else◌,
  length, is_empty,
}
use autonomous_agentic_platf.Events.Emitter.{Text}
use autonomous_agentic_platf.Structured.Salvage.{
  Loads, Salvaged, object, no_object, raised, salvage_json, ticks, behind, behind_newline,
}
use autonomous_agentic_platf.Structured.Fenced.{Language, json, python, py, unnamed, language_name}

-- `(python|py|json)?` and what follows it.
unfoldable pub language_at : Text → Language × Text
language_at source = elim (behind (language_name python) source) [
  | some rest ↦ (python, rest)
  | none ↦ elim (behind (language_name py) source) [
    | some rest ↦ (py, rest)
    | none ↦ elim (behind (language_name json) source) [
      | some rest ↦ (json, rest)
      | none ↦ (unnamed, source)
    ]
  ]
]

-- `(.*?)` and three backticks: what stands before and behind them.
unfoldable pub split_ticks : Text → Option (Text × Text)
split_ticks [] = none
split_ticks (c ∷ source) =
    let rest = split_ticks source in
    elim (behind ticks (c ∷ source)) [
      | some after ↦ some ([], after)
      | none ↦ elim rest [ none ↦ none | some (body, after) ↦ some (c ∷ body, after) ]
    ]

-- A match of the pattern at a place: the language, the body, and what follows.
abbrev pub Block : Type 0
Block = Language × Text × Text

abbrev pub with_body : Language → Option (Text × Text) → Option Block
with_body language none = none
with_body language (some (body, after)) = some (language, body, after)

abbrev pub behind_language_at : Language × Text → Option Block
behind_language_at (language, source) = elim (behind_newline source) [
  | none ↦ none
  | some rest ↦ with_body language (split_ticks rest)
]

unfoldable pub block_at : Text → Option Block
block_at source = elim (behind ticks source) [
  | none ↦ none
  | some opened ↦ behind_language_at (language_at opened)
]

-- `re.findall`, with as much fuel as there are characters.
unfoldable pub find_blocks : ℕ → Text → List (Language × Text)
unfolding block_at
find_blocks zero source = []
find_blocks (suc fuel) [] = []
find_blocks (suc fuel) (c ∷ source) =
    let skipped = find_blocks fuel source in
    elim (block_at (c ∷ source)) [
      | none ↦ skipped
      | some (language, body, after) ↦ (language, body) ∷ find_blocks fuel after
    ]

-- `body.strip("\n")`
abbrev pub strip_start : Text → Text
strip_start [] = []
strip_start (c ∷ source) = let rest = strip_start source in if c == 10 then rest else c ∷ source

abbrev pub strip_newlines : Text → Text
strip_newlines source = reverse (strip_start (reverse (strip_start source)))

-- The code and the sidecar, none where an exception is raised.
abbrev pub Extracted : Type 0 → Type 0
Extracted J = Option (Option Text × Option J)

abbrev pub keep_first : Option Text → Text → Option Text
keep_first none body = some (strip_newlines body)
keep_first (some code) body = some code

-- A `json` block; `as_dict` is `json.loads`, none where the value is no dict.
abbrev pub read_sidecar :
    {J : Type 0} → (Text → Option J) → Salvaged → Option Text → Option J → Extracted J
read_sidecar as_dict (object payload) code sidecar =
    some (code, elim (as_dict payload) [ none ↦ sidecar | some value ↦ some value ])
read_sidecar as_dict no_object code sidecar = some (code, sidecar)
read_sidecar as_dict raised code sidecar = none

abbrev pub read_block :
    {J : Type 0}
    → (Text → Loads)
    → (Text → Option J)
    → Language
    → Text
    → Option Text
    → Option J
    → Extracted J
read_block json_loads as_dict python body code sidecar = some (keep_first code body, sidecar)
read_block json_loads as_dict py body code sidecar = some (keep_first code body, sidecar)
read_block json_loads as_dict json body code sidecar =
    read_sidecar as_dict (salvage_json json_loads body) code sidecar
read_block json_loads as_dict unnamed body code sidecar = some (code, sidecar)

-- The loop over the blocks.
unfoldable pub read_blocks :
    {J : Type 0}
    → (Text → Loads)
    → (Text → Option J)
    → List (Language × Text)
    → Option Text
    → Option J
    → Extracted J
unfolding salvage_json
read_blocks json_loads as_dict [] code sidecar = some (code, sidecar)
read_blocks json_loads as_dict ((language, body) ∷ blocks) code sidecar =
    elim (read_block json_loads as_dict language body code sidecar) [
      | none ↦ none
      | some (next_code, next_sidecar) ↦
          read_blocks json_loads as_dict blocks next_code next_sidecar
    ]

-- A reply without a fence is code if it parses; `strip` and the parser are arguments.
abbrev pub without_blocks : {J : Type 0} → (Text → Bool) → Text → Extracted J
without_blocks parses stripped =
    some (if not (is_empty stripped) && parses stripped then some stripped else none, none)

-- `extract_code_and_sidecar`
unfoldable pub extract_code_and_sidecar :
    {J : Type 0}
    → (Text → Loads)
    → (Text → Option J)
    → (Text → Bool)
    → (Text → Text)
    → Text
    → Extracted J
unfolding find_blocks read_blocks
extract_code_and_sidecar json_loads as_dict parses strip source =
    let blocks = find_blocks (length source) source in
    if is_empty blocks
    then without_blocks parses (strip source)
    else read_blocks json_loads as_dict blocks none none
