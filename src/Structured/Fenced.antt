-- ===== src/Structured/Fenced.antt =====
-- `salvage_json` on plain prose and on a fenced block.
use autonomous_agentic_platf.Prelude.{
  ℕ, ◌≡◌, refl, Bool, true, false, not, none, some, List, [], ◌∷◌, ◌++◌, ◌==◌, all, and_both,
  negated,
}
use autonomous_agentic_platf.Events.Emitter.{Text}
use autonomous_agentic_platf.Structured.Salvage.{
  open_brace, close_brace, backtick, ticks, is_space, behind, behind_language, behind_newline,
  until_ticks, fence_at, find_fence, Loads, loads, object, try_candidates, salvage_json,
  try_attempts,
}
use autonomous_agentic_platf.Structured.Embedded.{
  Pieces, object_onto, pieces_onto, well_formed, outermost_object-object_onto,
}

abbrev pub no_ticks : Text → Bool
no_ticks source = all (λ c. not (backtick == c)) source

-- The language that a fence names.
pub data Language : Type 0 where
  json python py unnamed : Language

abbrev pub language_name : Language → Text
language_name json = 106 ∷ 115 ∷ 111 ∷ 110 ∷ []
language_name python = 112 ∷ 121 ∷ 116 ∷ 104 ∷ 111 ∷ 110 ∷ []
language_name py = 112 ∷ 121 ∷ []
language_name unnamed = []

-- A block between two fences, with what follows.
abbrev pub fenced : Language → Text → Text → Text
fenced language body post = ticks ++ (language_name language ++ 10 ∷ (body ++ (ticks ++ post)))

pub behind-ticks :
    (c : ℕ) (source : Text) → (backtick == c) ≡ false → behind ticks (c ∷ source) ≡ none
unfolding behind
behind-ticks c source h = rw h refl

fence_at-none : (c : ℕ) (source : Text) → (backtick == c) ≡ false → fence_at (c ∷ source) ≡ none
unfolding fence_at
fence_at-none c source h = rw (fence_at, behind-ticks c source h) refl

until_ticks-append :
    (body post : Text) → no_ticks body ≡ true → until_ticks (body ++ (ticks ++ post)) ≡ some body
unfolding until_ticks
until_ticks-append [] post h = refl
until_ticks-append (c ∷ body) post h =
    let (hc, hb) = and_both (not (backtick == c)) (no_ticks body) h in
    rw
      (
        behind-ticks c (body ++ (ticks ++ post)) (negated (backtick == c) hc),
        until_ticks-append body post hb,
      )
      refl

find_fence-none : (source : Text) → no_ticks source ≡ true → find_fence source ≡ none
unfolding find_fence
find_fence-none [] h = refl
find_fence-none (c ∷ source) h =
    let (hc, hs) = and_both (not (backtick == c)) (no_ticks source) h in
    rw (find_fence, fence_at-none c source (negated (backtick == c) hc)) (find_fence-none source hs)

behind_language-name :
    (language : Language) (source : Text)
    → behind_language (language_name language ++ 10 ∷ source) ≡ 10 ∷ source
unfolding behind_language
behind_language-name json source = refl
behind_language-name python source = refl
behind_language-name py source = refl
behind_language-name unnamed source = refl

pub behind_newline-body :
    (c : ℕ) (source : Text)
    → is_space c ≡ false
    → behind_newline (10 ∷ c ∷ source) ≡ some (c ∷ source)
unfolding behind_newline
behind_newline-body c source h = rw h refl

fence_at-fenced :
    (language : Language) (c : ℕ) (body post : Text)
    → is_space c ≡ false
    → no_ticks (c ∷ body) ≡ true
    → fence_at (fenced language (c ∷ body) post) ≡ some (c ∷ body)
unfolding fence_at behind
fence_at-fenced language c body post hs ht =
    rw
      (
        behind_language-name language (c ∷ (body ++ (ticks ++ post))),
        behind_newline-body c (body ++ (ticks ++ post)) hs,
        until_ticks-append (c ∷ body) post ht,
      )
      refl

find_fence-fenced :
    (prose : Text) (language : Language) (c : ℕ) (body post : Text)
    → no_ticks prose ≡ true
    → is_space c ≡ false
    → no_ticks (c ∷ body) ≡ true
    → find_fence (prose ++ fenced language (c ∷ body) post) ≡ some (c ∷ body)
unfolding find_fence
find_fence-fenced [] language c body post hp hs ht =
    rw (find_fence, fence_at-fenced language c body post hs ht) refl
find_fence-fenced (p ∷ prose) language c body post hp hs ht =
    let (hc, hr) = and_both (not (backtick == p)) (no_ticks prose) hp in
    rw
      (
        find_fence,
        fence_at-none p (prose ++ fenced language (c ∷ body) post) (negated (backtick == p) hc),
      )
      (find_fence-fenced prose language c body post hr hs ht)

try_candidates-object_onto :
    (json_loads : Text → Loads) (prose : Text) (pieces : Pieces) (rest : Text) (others : List Text)
    → all (λ c. not (c == open_brace)) prose ≡ true
    → well_formed pieces ≡ true
    → json_loads (object_onto pieces []) ≡ loads
    → try_candidates json_loads ((prose ++ object_onto pieces rest) ∷ others)
      ≡ object (object_onto pieces [])
unfolding try_candidates
try_candidates-object_onto json_loads prose pieces rest others hp hw hl =
    rw (try_candidates, outermost_object-object_onto prose pieces rest hp hw, try_attempts, hl) refl

-- In an answer without a backtick, an object behind prose without an opening brace is salvaged
-- character for character, whatever follows it, if its quotes and braces stand in pairs and
-- json.loads takes it.
pub salvage_json-object_onto :
    (json_loads : Text → Loads) (prose : Text) (pieces : Pieces) (rest : Text)
    → all (λ c. not (c == open_brace)) prose ≡ true
    → no_ticks (prose ++ object_onto pieces rest) ≡ true
    → well_formed pieces ≡ true
    → json_loads (object_onto pieces []) ≡ loads
    → salvage_json json_loads (prose ++ object_onto pieces rest) ≡ object (object_onto pieces [])
unfolding salvage_json
salvage_json-object_onto json_loads prose pieces rest hp ht hw hl =
    rw (salvage_json, find_fence-none (prose ++ object_onto pieces rest) ht)
      (try_candidates-object_onto json_loads prose pieces rest [] hp hw hl)

-- An object that starts a fenced block, under any language that the fence may name, is salvaged
-- character for character, with braces and quotes within its strings, whatever stands behind it
-- in the block and behind the block, if the prose in front of the fence and the block have no
-- backtick, the quotes and the braces of the object stand in pairs, and json.loads takes it.
pub salvage_json-fenced :
    (json_loads : Text → Loads) (prose : Text) (language : Language) (pieces : Pieces)
    (rest post : Text)
    → no_ticks prose ≡ true
    → no_ticks (object_onto pieces rest) ≡ true
    → well_formed pieces ≡ true
    → json_loads (object_onto pieces []) ≡ loads
    → salvage_json json_loads (prose ++ fenced language (object_onto pieces rest) post)
      ≡ object (object_onto pieces [])
unfolding salvage_json
salvage_json-fenced json_loads prose language pieces rest post hp ht hw hl =
    rw
      (
        salvage_json,
        find_fence-fenced prose language open_brace (pieces_onto pieces (close_brace ∷ rest)) post
            hp refl ht,
      )
      (try_candidates-object_onto json_loads [] pieces rest
        ((prose ++ fenced language (object_onto pieces rest) post) ∷ []) refl hw hl)
