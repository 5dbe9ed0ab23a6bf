-- ===== src/Sandbox/Logs.antt =====
-- `_pump_logs`: the output of a container on disk, within a number of bytes for each stream.
use autonomous_agentic_platf.Prelude.{
  ℕ, zero, suc, ◌+◌, ◌-◌, List, [], ◌∷◌, ◌++◌, ltb, leb, if◌then◌else◌, length, is_empty,
}

-- A byte is its number; a chunk of a stream is none where the daemon sends the other stream.
abbrev pub Bytes : Type 0
Bytes = List ℕ

-- `\n[truncated: output limit reached]\n`
abbrev pub truncation_note : Bytes
truncation_note =
    10 ∷ 91 ∷ 116 ∷ 114 ∷ 117 ∷ 110 ∷ 99 ∷ 97 ∷ 116 ∷ 101 ∷ 100 ∷ 58 ∷ 32 ∷ 111 ∷ 117 ∷ 116 ∷ 112
    ∷ 117 ∷ 116 ∷ 32 ∷ 108 ∷ 105 ∷ 109 ∷ 105 ∷ 116 ∷ 32 ∷ 114 ∷ 101 ∷ 97 ∷ 99 ∷ 104 ∷ 101 ∷ 100 ∷ 93
    ∷ 10 ∷ []

-- One stream: the log file and the bytes written to it. `written` counts the note as well.
pub record Capture : Type 0 where
  pub file : Bytes
  pub written : ℕ

abbrev pub no_capture : Capture
no_capture = record { file = []; written = 0 }

unfoldable pub take : ℕ → Bytes → Bytes
take zero bytes = []
take (suc n) [] = []
take (suc n) (b ∷ bytes) = b ∷ take n bytes

-- What of a chunk is written where so many bytes remain.
abbrev pub cut_chunk : ℕ → Bytes → Bytes
unfolding take
cut_chunk remaining chunk =
    if ltb remaining (length chunk) then take remaining chunk ++ truncation_note else chunk

-- A chunk of a stream; an empty one and one behind the limit are skipped.
unfoldable pub capture : ℕ → Bytes → Capture → Capture
unfolding cut_chunk
capture limit chunk s =
    let cut = cut_chunk (limit - s.written) chunk in
    if is_empty chunk
    then s
    else if leb limit s.written
    then s
    else record { file = s.file ++ cut; written = s.written + length cut }

-- Both streams, as the daemon interleaves them.
pub record Captures : Type 0 where
  pub stdout : Capture
  pub stderr : Capture

-- `_pump_logs`, once it is attached.
unfoldable pub pump_logs : ℕ → List (Bytes × Bytes) → Captures → Captures
unfolding capture
pump_logs limit [] s = s
pump_logs limit ((stdout_chunk, stderr_chunk) ∷ stream) s = pump_logs limit stream (record {
  stdout = capture limit stdout_chunk s.stdout;
  stderr = capture limit stderr_chunk s.stderr;
})
