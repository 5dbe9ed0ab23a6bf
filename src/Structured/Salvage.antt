-- ===== src/Structured/Salvage.antt =====
-- `salvage_json`: the object in a model's prose.
use autonomous_agentic_platf.Prelude.{
  ℕ, zero, suc, Bool, true, false, not, ◌&&◌, ◌||◌, Option, none, some, List, [], ◌∷◌, leb, ◌==◌,
  if◌then◌else◌, or_else, is_some,
}
use autonomous_agentic_platf.Events.Emitter.{Text}

abbrev pub open_brace : ℕ
open_brace = 123

abbrev pub close_brace : ℕ
close_brace = 125

abbrev pub quote : ℕ
quote = 34

abbrev pub backslash : ℕ
backslash = 92

abbrev pub backtick : ℕ
backtick = 96

-- The three variables of `_outermost_object`.
pub record Scanner : Type 0 where
  pub depth : ℕ
  pub in_string : Bool
  pub escaped : Bool

abbrev pub fresh_scanner : Scanner
fresh_scanner = record { depth = 0; in_string = false; escaped = false }

-- A character behind a quote, and one outside of strings.
abbrev pub scan_string : ℕ → Scanner → Scanner
scan_string char s =
    if s.escaped
    then record s { escaped = false }
    else if char == backslash
    then record s { escaped = true }
    else if char == quote
    then record s { in_string = false }
    else s

-- `depth - 1`, never below zero as a brace was opened before.
abbrev pub lowered : ℕ → ℕ
lowered zero = zero
lowered (suc d) = d

abbrev pub scan_plain : ℕ → Scanner → Scanner
scan_plain char s =
    if char == quote
    then record s { in_string = true }
    else if char == open_brace
    then record s { depth = suc s.depth }
    else if char == close_brace
    then record s { depth = lowered s.depth }
    else s

abbrev pub scan_char : ℕ → Scanner → Scanner
scan_char char s = if s.in_string then scan_string char s else scan_plain char s

-- The character is the brace that brings `depth` to zero.
abbrev pub closes : ℕ → Scanner → Bool
closes char s = not s.in_string && (char == close_brace && lowered s.depth == 0)

-- A character in front of a text, if there is one.
abbrev pub push : ℕ → Option Text → Option Text
push char none = none
push char (some block) = some (char ∷ block)

-- The loop: the characters up to that brace.
unfoldable pub scan : Scanner → Text → Option Text
scan s [] = none
scan s (char ∷ chars) =
    let rest = scan (scan_char char s) chars in
    if closes char s then some (char ∷ []) else push char rest

-- The text from the first brace on.
unfoldable pub from_brace : Text → Option Text
from_brace [] = none
from_brace (char ∷ chars) = if char == open_brace then some (char ∷ chars) else from_brace chars

-- `_outermost_object`
unfoldable pub outermost_object : Text → Option Text
unfolding scan from_brace
outermost_object source = elim (from_brace source) [
  | none ↦ none
  | some block ↦ scan fresh_scanner block
]

-- `\s` of Python's regular expressions.
abbrev pub is_space : ℕ → Bool
is_space c =
    (leb 9 c && leb c 13)
    || ((leb 28 c && leb c 32)
        || (c == 0x85
            || (c == 0xa0
                || (c == 0x1680
                    || ((leb 0x2000 c && leb c 0x200a)
                        || (c == 0x2028
                            || (c == 0x2029 || (c == 0x202f || (c == 0x205f || c == 0x3000)))))))))

-- What follows a prefix.
unfoldable pub behind : Text → Text → Option Text
behind [] source = some source
behind (p ∷ prefix) [] = none
behind (p ∷ prefix) (c ∷ source) = let rest = behind prefix source in if p == c then rest else none

-- Three backticks.
abbrev pub ticks : Text
ticks = backtick ∷ backtick ∷ backtick ∷ []

-- `(?:json|python|py)?`, where the longest that fits is the one with which the rest can match.
unfoldable pub behind_language : Text → Text
unfolding behind
behind_language source = elim (behind (106 ∷ 115 ∷ 111 ∷ 110 ∷ []) source) [
  | some rest ↦ rest
  | none ↦ elim (behind (112 ∷ 121 ∷ 116 ∷ 104 ∷ 111 ∷ 110 ∷ []) source) [
    | some rest ↦ rest
    | none ↦ or_else (behind (112 ∷ 121 ∷ []) source) source
  ]
]

-- `\s*\n`, which takes the last newline of the white space.
unfoldable pub behind_newline : Text → Option Text
behind_newline [] = none
behind_newline (c ∷ source) =
    let rest = behind_newline source in
    if is_space c
    then elim rest [ some body ↦ some body | none ↦ if c == 10 then some source else none ]
    else none

-- `(.*?)` before three backticks.
unfoldable pub until_ticks : Text → Option Text
unfolding behind
until_ticks [] = none
until_ticks (c ∷ source) =
    let rest = until_ticks source in
    if is_some (behind ticks (c ∷ source))
    then some []
    else elim rest [ none ↦ none | some body ↦ some (c ∷ body) ]

-- `_FENCE` at a place, and `_FENCE.search`, with the group.
abbrev pub chain : Option Text → (Text → Option Text) → Option Text
chain none next = none
chain (some source) next = next source

unfoldable pub fence_at : Text → Option Text
unfolding behind behind_language behind_newline until_ticks
fence_at source =
    chain (behind ticks source)
      (λ opened. chain (behind_newline (behind_language opened)) until_ticks)

unfoldable pub find_fence : Text → Option Text
unfolding fence_at
find_fence [] = none
find_fence (c ∷ source) =
    let rest = find_fence source in
    elim (fence_at (c ∷ source)) [ none ↦ rest | some body ↦ some body ]

-- White space and a closing bracket.
unfoldable pub bracket_follows : Text → Bool
bracket_follows [] = false
bracket_follows (c ∷ source) =
    let rest = bracket_follows source in (c == close_brace || c == 93) || (is_space c && rest)

-- `_TRAILING_COMMA.sub`, also inside strings.
unfoldable pub drop_trailing_commas : Text → Text
unfolding bracket_follows
drop_trailing_commas [] = []
drop_trailing_commas (c ∷ source) =
    let rest = drop_trailing_commas source in
    if c == 44 && bracket_follows source then rest else c ∷ rest

-- What `json.loads` does: it returns, raises a `JSONDecodeError`, or another exception.
pub data Loads : Type 0 where
  loads decode_error other_error : Loads

-- What `salvage_json` returns; `raised` where `loads` raises another exception.
pub data Salvaged : Type 0 where
  object : (payload : Text) → Salvaged
  no_object raised : Salvaged

-- The loop over the attempts on one candidate, `otherwise` behind it.
abbrev pub try_attempts : (Text → Loads) → List Text → Salvaged → Salvaged
try_attempts json_loads [] otherwise = otherwise
try_attempts json_loads (attempt ∷ attempts) otherwise =
    let rest = try_attempts json_loads attempts otherwise in
    elim (json_loads attempt) [
      | loads ↦ object attempt
      | decode_error ↦ rest
      | other_error ↦ raised
    ]

-- The loop over the candidates.
unfoldable pub try_candidates : (Text → Loads) → List Text → Salvaged
unfolding outermost_object drop_trailing_commas
try_candidates json_loads [] = no_object
try_candidates json_loads (candidate ∷ candidates) =
    let rest = try_candidates json_loads candidates in
    elim (outermost_object candidate) [
      | none ↦ rest
      | some block ↦ try_attempts json_loads (block ∷ drop_trailing_commas block ∷ []) rest
    ]

-- `salvage_json`
unfoldable pub salvage_json : (Text → Loads) → Text → Salvaged
unfolding find_fence try_candidates
salvage_json json_loads source = elim (find_fence source) [
  | none ↦ try_candidates json_loads (source ∷ [])
  | some body ↦ try_candidates json_loads (body ∷ source ∷ [])
]
