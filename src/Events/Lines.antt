-- ===== src/Events/Lines.antt =====
-- `SandboxLineStreamer` and `truncate_line`: the output of a container, cut into lines, within a
-- number of bytes for each stream. What a stream hands to the emitter is the list of its lines.
pub mod Chunks
pub mod Caps
use autonomous_agentic_platf.Prelude.{
  ℕ, zero, suc, ◌+◌, ◌-◌, ◌*◌, ◌≤◌, ◌<◌, min, max, String, ◌≡◌, refl, sym, ap, ◌∙◌, ◌≢◌, ◌↔◌, ◌⊎◌,
  inl, inr, Bool, true, false, not, ◌&&◌, ◌||◌, Option, none, some, List, [], ◌∷◌, ◌++◌, map,
  reverse, arith, eq_iff, str_eq, ltb, leb, ◌==◌, if◌then◌else◌, ltb→lt, lt→ltb, leb→le, le→leb,
  Bool-cases, Option-cases, or_else, is_some, is_none, length, is_empty, all, any, select, find?,
  count_if, length-append, count_if-append, count_if-le-length, All, All-append, All-reverse,
  All-imp, length-reverse, contains, lookup, insert, merge, ℤ, pos, negsuc, Floats, joined,
  joined-append, append_assoc, append-nil, remove, keys, lookup-insert_any, lookup-remove,
  lookup-keys,
}
use autonomous_agentic_platf.Events.Emitter.{Text}

-- `MAX_LINE_BYTES`
abbrev pub max_line_bytes : ℕ
max_line_bytes = 4096

abbrev pub newline : ℕ
newline = 10

-- A surrogate has no UTF-8, and `errors="replace"` writes a `?`.
abbrev pub is_surrogate : ℕ → Bool
is_surrogate c = leb 0xd800 c && leb c 0xdfff

-- The number of bytes of a code point in UTF-8.
unfoldable pub utf8_bytes : ℕ → ℕ
utf8_bytes c =
    if is_surrogate c
    then 1
    else if ltb c 0x80
    then 1
    else if ltb c 0x800
    then 2
    else if ltb c 0x10000
    then 3
    else 4

-- `len(text.encode("utf-8", errors="replace"))`
abbrev pub byte_length : Text → ℕ
byte_length [] = 0
byte_length (c ∷ cs) = utf8_bytes c + byte_length cs

-- What a code point reads as after it was encoded so and decoded.
abbrev pub recoded : ℕ → ℕ
recoded c = if is_surrogate c then 63 else c

-- `encoded[:limit].decode("utf-8", errors="ignore")`: a character that is cut is dropped.
unfoldable pub cut_bytes : ℕ → Text → Text
unfolding utf8_bytes
cut_bytes limit [] = []
cut_bytes limit (c ∷ cs) =
    let rest = cut_bytes (limit - utf8_bytes c) cs in
    if leb (utf8_bytes c) limit then recoded c ∷ rest else []

-- `…[truncated]`
abbrev pub truncation_mark : Text
truncation_mark = 0x2026 ∷ 91 ∷ 116 ∷ 114 ∷ 117 ∷ 110 ∷ 99 ∷ 97 ∷ 116 ∷ 101 ∷ 100 ∷ 93 ∷ []

unfoldable pub truncate_line : ℕ → Text → Text
unfolding cut_bytes
truncate_line limit line =
    if leb (byte_length line) limit then line else cut_bytes limit line ++ truncation_mark

-- The lines and the tail of a text with one more character in front.
abbrev pub add_char : ℕ → List Text → Text → List Text × Text
add_char c lines tail =
    if c == newline
    then ([] ∷ lines, tail)
    else elim lines [ [] ↦ ([], c ∷ tail) | line ∷ more ↦ ((c ∷ line) ∷ more, tail) ]

-- `buffered.split("\n")`: the terminated lines, and what is behind the last newline.
unfoldable pub split_lines : Text → List Text × Text
split_lines [] = ([], [])
split_lines (c ∷ cs) = let (lines, tail) = split_lines cs in add_char c lines tail

-- `line.rstrip("\r")`
unfoldable pub rstrip_cr : Text → Text
rstrip_cr [] = []
rstrip_cr (c ∷ cs) = let rest = rstrip_cr cs in if c == 13 && is_empty rest then [] else c ∷ rest

-- One of the two streams of the container.
pub record Stream : Type 0 where
  pub partial : Text
  pub bytes : ℕ
  pub dropped : ℕ
  pub announced : Bool
  pub lines : List Text
  pub truncations : List ℕ

abbrev pub fresh_stream : Stream
fresh_stream = record {
  partial = [];
  bytes = 0;
  dropped = 0;
  announced = false;
  lines = [];
  truncations = [];
}

-- The bytes of a line with its newline.
abbrev pub line_size : Text → ℕ
line_size line = byte_length line + 1

-- `_offer`
unfoldable pub offer : ℕ → Text → Stream → Stream
unfolding rstrip_cr truncate_line
offer max_bytes line s =
    let size = line_size line in
    if ltb max_bytes (s.bytes + size) then record s { dropped = s.dropped + size } else record s {
      bytes = s.bytes + size;
      lines = s.lines ++ truncate_line max_line_bytes (rstrip_cr line) ∷ [];
    }

unfoldable pub offer_all : ℕ → List Text → Stream → Stream
unfolding offer
offer_all max_bytes [] s = s
offer_all max_bytes (line ∷ lines) s = offer_all max_bytes lines (offer max_bytes line s)

-- `__call__`, on the stream that the chunk belongs to.
unfoldable pub receive : ℕ → Text → Stream → Stream
unfolding offer_all split_lines
receive max_bytes chunk s =
    let (lines, tail) = split_lines (s.partial ++ chunk) in
    offer_all max_bytes lines (record s { partial = tail })

unfoldable pub receive_all : ℕ → List Text → Stream → Stream
unfolding receive
receive_all max_bytes [] s = s
receive_all max_bytes (chunk ∷ chunks) s = receive_all max_bytes chunks (receive max_bytes chunk s)

abbrev pub announce : Stream → Stream
announce s =
    if not (s.dropped == 0) && not s.announced
    then record s { announced = true; truncations = s.truncations ++ s.dropped ∷ [] }
    else s

-- `flush`
unfoldable pub flush : ℕ → Stream → Stream
unfolding offer
flush max_bytes s =
    announce
      (if is_empty s.partial then s else offer max_bytes s.partial (record s { partial = [] }))
