-- ===== src/Events/Lines/Caps.antt =====
-- The bounds on what a stream hands on.
use autonomous_agentic_platf.Prelude.{
  ℕ, ◌+◌, ◌*◌, ◌≤◌, ◌≡◌, false, List, [], ◌∷◌, ◌==◌, if◌then◌else◌, is_empty, All,
}
use autonomous_agentic_platf.Events.Emitter.{Text}
use autonomous_agentic_platf.Events.Lines.{
  Stream, byte_length, line_size, max_line_bytes, split_lines,
}

-- The number of bytes of the lines with their newlines.
abbrev pub sizes : List Text → ℕ
sizes [] = 0
sizes (line ∷ lines) = line_size line + sizes lines

-- The stream is within its number of bytes, and has kept or dropped each byte of `total`.
abbrev Counts : ℕ → ℕ → Stream → Type 0
Counts max_bytes total s =
    (s.bytes ≤ max_bytes)
    × (s.bytes + s.dropped ≡ total)
    × (4098 * sizes s.lines ≤ 4111 * s.bytes)
    × All (λ line. byte_length line ≤ max_line_bytes + 14) s.lines
    × (s.announced ≡ false)
    × (s.truncations ≡ [])

-- What is announced is what was dropped.
abbrev announced_bytes : ℕ → List ℕ
announced_bytes dropped = if dropped == 0 then [] else dropped ∷ []

-- A text without its newline at the end has one byte less than its lines.
abbrev pub Accounts : ℕ → Text → Stream → Type 0
Accounts max_bytes text s =
    (s.bytes ≤ max_bytes)
    × (s.bytes + s.dropped ≡ byte_length text + (if is_empty (split_lines text).1 then 0 else 1))
    × (4098 * sizes s.lines ≤ 4111 * s.bytes)
    × All (λ line. byte_length line ≤ max_line_bytes + 14) s.lines
    × (s.truncations ≡ announced_bytes s.dropped)
