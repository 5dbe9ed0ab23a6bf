-- ===== src/Structured/Contract.antt =====
-- The coder's answer by its contract: a block of Python, then one of JSON.
use autonomous_agentic_platf.Prelude.{
  ℕ, zero, suc, ◌+◌, ◌-◌, ◌≤◌, ◌≡◌, refl, ap, ◌∙◌, Bool, true, false, not, Option, none, some, [],
  ◌∷◌, ◌++◌, arith, ◌==◌, length, length-append, and_both, negated,
}
use autonomous_agentic_platf.Events.Emitter.{Text}
use autonomous_agentic_platf.Structured.Salvage.{
  Loads, loads, open_brace, close_brace, backtick, ticks, is_space, behind,
}
use autonomous_agentic_platf.Structured.Embedded.{Pieces, object_onto, pieces_onto, well_formed}
use autonomous_agentic_platf.Structured.Fenced.{
  Language, json, python, py, unnamed, language_name, fenced, no_ticks, salvage_json-object_onto,
  behind-ticks, behind_newline-body,
}
use autonomous_agentic_platf.Structured.Sidecar.{
  language_at, split_ticks, behind_language_at, block_at, find_blocks, strip_newlines, read_blocks,
  extract_code_and_sidecar,
}

split_ticks-append :
    (body post : Text)
    → no_ticks body ≡ true
    → split_ticks (body ++ (ticks ++ post)) ≡ some (body, post)
unfolding split_ticks behind
split_ticks-append [] post h = refl
split_ticks-append (c ∷ body) post h =
    let (hc, hb) = and_both (not (backtick == c)) (no_ticks body) h in
    rw
      (
        split_ticks,
        behind-ticks c (body ++ (ticks ++ post)) (negated (backtick == c) hc),
        split_ticks-append body post hb,
      )
      refl

language_at-name :
    (language : Language) (source : Text)
    → language_at (language_name language ++ 10 ∷ source) ≡ (language, 10 ∷ source)
unfolding language_at behind
language_at-name json source = refl
language_at-name python source = refl
language_at-name py source = refl
language_at-name unnamed source = refl

behind_language_at-body :
    (language : Language) (c : ℕ) (body post : Text)
    → is_space c ≡ false
    → no_ticks (c ∷ body) ≡ true
    → behind_language_at (language, 10 ∷ c ∷ (body ++ (ticks ++ post)))
      ≡ some (language, c ∷ body, post)
behind_language_at-body language c body post hs ht =
    rw
      (
        behind_language_at,
        behind_newline-body c (body ++ (ticks ++ post)) hs,
        split_ticks-append (c ∷ body) post ht,
      )
      refl

block_at-fenced :
    (language : Language) (c : ℕ) (body post : Text)
    → is_space c ≡ false
    → no_ticks (c ∷ body) ≡ true
    → block_at (fenced language (c ∷ body) post) ≡ some (language, c ∷ body, post)
unfolding block_at behind
block_at-fenced language c body post hs ht =
    ap behind_language_at (language_at-name language (c ∷ (body ++ (ticks ++ post))))
    ∙ behind_language_at-body language c body post hs ht

block_at-none : (c : ℕ) (source : Text) → (backtick == c) ≡ false → block_at (c ∷ source) ≡ none
unfolding block_at
block_at-none c source h = rw (block_at, behind-ticks c source h) refl

find_blocks-none :
    (fuel : ℕ) (source : Text) → no_ticks source ≡ true → find_blocks fuel source ≡ []
unfolding find_blocks
find_blocks-none zero source h = refl
find_blocks-none (suc fuel) [] h = refl
find_blocks-none (suc fuel) (c ∷ source) h =
    let (hc, hs) = and_both (not (backtick == c)) (no_ticks source) h in
    rw (find_blocks, block_at-none c source (negated (backtick == c) hc))
      (find_blocks-none fuel source hs)

-- Prose takes as much fuel as it has characters.
find_blocks-append :
    (prose source : Text) (n fuel : ℕ)
    → n ≡ length prose + fuel
    → no_ticks prose ≡ true
    → find_blocks n (prose ++ source) ≡ find_blocks fuel source
unfolding find_blocks
find_blocks-append [] source n fuel e h = ap (λ k. find_blocks k source) (omega arith)
find_blocks-append (c ∷ prose) source zero fuel e h = absurd (omega arith)
find_blocks-append (c ∷ prose) source (suc n) fuel e h =
    let (hc, hs) = and_both (not (backtick == c)) (no_ticks prose) h in
    rw (find_blocks, block_at-none c (prose ++ source) (negated (backtick == c) hc))
      (find_blocks-append prose source n fuel (omega arith) hs)

find_blocks-fenced :
    (language : Language) (c : ℕ) (body post : Text) (fuel : ℕ)
    → is_space c ≡ false
    → no_ticks (c ∷ body) ≡ true
    → find_blocks (suc fuel) (fenced language (c ∷ body) post)
      ≡ (language, c ∷ body) ∷ find_blocks fuel post
unfolding find_blocks
find_blocks-fenced language c body post fuel hs ht =
    rw (find_blocks, block_at-fenced language c body post hs ht) refl

-- An answer with its two blocks, and prose around them.
abbrev pub contract_answer : Text → Text → Text → Text → Text → Text
contract_answer prose code between sidecar post =
    prose ++ fenced python code (between ++ fenced json sidecar post)

find_blocks-contract_answer :
    (n c : ℕ) (prose code between sidecar post : Text)
    → length prose + (length between + 2) ≤ n
    → no_ticks prose ≡ true
    → is_space c ≡ false
    → no_ticks (c ∷ code) ≡ true
    → no_ticks between ≡ true
    → no_ticks (open_brace ∷ sidecar) ≡ true
    → no_ticks post ≡ true
    → find_blocks n (contract_answer prose (c ∷ code) between (open_brace ∷ sidecar) post)
      ≡ (python, c ∷ code) ∷ (json, open_brace ∷ sidecar) ∷ []
find_blocks-contract_answer n c prose code between sidecar post room hp hc ht hb hs ho =
    let k = n - (length prose + 1) in
    let j = k - (length between + 1) in
    find_blocks-append prose
      (fenced python (c ∷ code) (between ++ fenced json (open_brace ∷ sidecar) post)) n (suc k)
      (omega arith) hp
    ∙ (find_blocks-fenced python c code (between ++ fenced json (open_brace ∷ sidecar) post) k hc ht
        ∙ ap (λ blocks. (python, c ∷ code) ∷ blocks)
            (find_blocks-append between (fenced json (open_brace ∷ sidecar) post) k (suc j)
                (omega arith) hb
              ∙ (find_blocks-fenced json open_brace sidecar post j refl hs
                  ∙ ap (λ blocks. (json, open_brace ∷ sidecar) ∷ blocks)
                      (find_blocks-none j post ho))))

length-contract_answer :
    (c : ℕ) (prose code between sidecar post : Text)
    → length prose + (length between + 2)
      ≤ length (contract_answer prose (c ∷ code) between sidecar post)
length-contract_answer c prose code between sidecar post =
    let inner = fenced json sidecar post in
    let outer = fenced python (c ∷ code) (between ++ inner) in
    let la = length-append prose outer in
    let lb = length-append code (ticks ++ (between ++ inner)) in
    let lc = length-append between inner in omega arith

-- From an answer by the coder's contract, prose, a block of Python, prose, a block of JSON that
-- starts with an object, and prose, the code is extracted character for character, but for
-- newlines around it, and the sidecar is what json.loads makes of the object, if no text has a
-- backtick but the fences, the code does not start with white space, the quotes and the braces of
-- the object stand in pairs, and json.loads takes it and gives a dict.
pub extract_code_and_sidecar-contract_answer :
    {J : Type 0} (json_loads : Text → Loads) (as_dict : Text → Option J) (parses : Text → Bool)
    (strip : Text → Text) (c : ℕ) (prose code between : Text) (pieces : Pieces) (rest post : Text)
    (sidecar : J)
    → no_ticks prose ≡ true
    → is_space c ≡ false
    → no_ticks (c ∷ code) ≡ true
    → no_ticks between ≡ true
    → no_ticks (object_onto pieces rest) ≡ true
    → no_ticks post ≡ true
    → well_formed pieces ≡ true
    → json_loads (object_onto pieces []) ≡ loads
    → as_dict (object_onto pieces []) ≡ some sidecar
    → extract_code_and_sidecar json_loads as_dict parses strip
        (contract_answer prose (c ∷ code) between (object_onto pieces rest) post)
      ≡ some (some (strip_newlines (c ∷ code)), some sidecar)
unfolding extract_code_and_sidecar read_blocks
extract_code_and_sidecar-contract_answer json_loads as_dict parses strip c prose code between pieces
      rest post sidecar hp hc ht hb hs ho hw hl hd =
    let inside = pieces_onto pieces (close_brace ∷ rest) in
    let blocks =
      find_blocks-contract_answer
        (length (contract_answer prose (c ∷ code) between (open_brace ∷ inside) post)) c prose code
        between inside post (length-contract_answer c prose code between (open_brace ∷ inside) post)
        hp hc ht hb hs ho in
    let salvaged = salvage_json-object_onto json_loads [] pieces rest refl hs hw hl in
    rw (extract_code_and_sidecar, blocks, read_blocks, salvaged, hd) refl
