-- ===== src/Structured/Embedded.antt =====
-- `_outermost_object` on an object in a model's prose.
use autonomous_agentic_platf.Prelude.{
  ℕ, suc, ◌≡◌, refl, ap, ◌∙◌, Bool, true, false, not, ◌&&◌, Option, none, some, List, [], ◌∷◌, ◌++◌,
  arith, ◌==◌, all, and_both, negated,
}
use autonomous_agentic_platf.Events.Emitter.{Text}
use autonomous_agentic_platf.Structured.Salvage.{
  open_brace, close_brace, quote, backslash, push, Scanner, fresh_scanner, scan_char, closes, scan,
  from_brace, outermost_object,
}

-- A character of a string, as it is or behind a backslash.
pub data Part : Type 0 where
  literal escape : (char : ℕ) → Part

-- What stands between the braces of an object: characters, strings and objects.
pub data Pieces : Type 0 where
  done : Pieces
  char : (c : ℕ) (rest : Pieces) → Pieces
  string : (parts : List Part) (rest : Pieces) → Pieces
  braces : (inner rest : Pieces) → Pieces

abbrev pub parts_onto : List Part → Text → Text
parts_onto [] tail = tail
parts_onto (literal c ∷ parts) tail = c ∷ parts_onto parts tail
parts_onto (escape c ∷ parts) tail = backslash ∷ c ∷ parts_onto parts tail

-- The text of the pieces, in front of another.
abbrev pub pieces_onto : Pieces → Text → Text
pieces_onto done tail = tail
pieces_onto (char c rest) tail = c ∷ pieces_onto rest tail
pieces_onto (string parts rest) tail = quote ∷ parts_onto parts (quote ∷ pieces_onto rest tail)
pieces_onto (braces inner rest) tail =
    open_brace ∷ pieces_onto inner (close_brace ∷ pieces_onto rest tail)

-- An object in front of a text.
abbrev pub object_onto : Pieces → Text → Text
object_onto pieces tail = open_brace ∷ pieces_onto pieces (close_brace ∷ tail)

abbrev pub is_plain : ℕ → Bool
is_plain c = not (c == quote) && (not (c == open_brace) && not (c == close_brace))

abbrev pub is_part : Part → Bool
is_part (literal c) = not (c == quote) && not (c == backslash)
is_part (escape c) = true

-- Quotes stand around strings only, and braces around objects.
unfoldable pub well_formed : Pieces → Bool
well_formed done = true
well_formed (char c rest) = is_plain c && well_formed rest
well_formed (string parts rest) = all is_part parts && well_formed rest
well_formed (braces inner rest) = well_formed inner && well_formed rest

-- The scanner outside of strings and inside of one.
abbrev outside : ℕ → Scanner
outside d = record { depth = d; in_string = false; escaped = false }

abbrev inside : ℕ → Scanner
inside d = record { depth = d; in_string = true; escaped = false }

abbrev mapped : (Text → Text) → Option Text → Option Text
mapped f none = none
mapped f (some block) = some (f block)

push-mapped :
    (c : ℕ) (f : Text → Text) (o : Option Text) → push c (mapped f o) ≡ mapped (λ b. c ∷ f b) o
push-mapped c f none = refl
push-mapped c f (some block) = refl

mapped-mapped :
    (f g : Text → Text) (o : Option Text) → mapped f (mapped g o) ≡ mapped (λ b. f (g b)) o
mapped-mapped f g none = refl
mapped-mapped f g (some block) = refl

mapped_same : (o : Option Text) → o ≡ mapped (λ b. b) o
mapped_same none = refl
mapped_same (some block) = refl

-- A character that does not close the object goes in front of what the scanner finds behind it.
scan_open :
    (c : ℕ) (s next : Scanner) (source : Text)
    → closes c s ≡ false
    → scan_char c s ≡ next
    → scan s (c ∷ source) ≡ push c (scan next source)
unfolding scan
scan_open c s next source hc hn = rw (hc, hn) refl

plain_cases :
    (a b c : Bool) → (not a && (not b && not c)) ≡ true → (a ≡ false) × ((b ≡ false) × (c ≡ false))
plain_cases false false false h = (refl, (refl, refl))
plain_cases true b c h = absurd (cc)
plain_cases false true c h = absurd (cc)
plain_cases false false true h = absurd (cc)

scan-is_plain :
    (c d : ℕ) (source : Text)
    → is_plain c ≡ true
    → scan (outside d) (c ∷ source) ≡ push c (scan (outside d) source)
scan-is_plain c d source h =
    let (hq, (ho, hc)) = plain_cases (c == quote) (c == open_brace) (c == close_brace) h in
    scan_open c (outside d) (outside d) source (rw hc refl) (rw (hq, ho, hc) refl)

-- The characters of a string leave the scanner inside of it.
scan-parts_onto :
    (parts : List Part) (d : ℕ) (source : Text)
    → all is_part parts ≡ true
    → scan (inside d) (parts_onto parts source)
      ≡ mapped (λ b. parts_onto parts b) (scan (inside d) source)
scan-parts_onto [] d source h = mapped_same (scan (inside d) source)
scan-parts_onto (literal c ∷ parts) d source h =
    let (hp, hs) = and_both (not (c == quote) && not (c == backslash)) (all is_part parts) h in
    let (hq, hb) = and_both (not (c == quote)) (not (c == backslash)) hp in
    scan_open c (inside d) (inside d) (parts_onto parts source) refl
      (rw (negated (c == backslash) hb, negated (c == quote) hq) refl)
    ∙ rw (scan-parts_onto parts d source hs)
        (push-mapped c (λ b. parts_onto parts b) (scan (inside d) source))
scan-parts_onto (escape c ∷ parts) d source h =
    scan_open backslash (inside d) (record { depth = d; in_string = true; escaped = true })
      (c ∷ parts_onto parts source) refl refl
    ∙ ap (push backslash) (
        scan_open c (record { depth = d; in_string = true; escaped = true }) (inside d)
          (parts_onto parts source) refl refl
        ∙ rw (scan-parts_onto parts d source h)
            (push-mapped c (λ b. parts_onto parts b) (scan (inside d) source)))
    ∙ push-mapped backslash (λ b. c ∷ parts_onto parts b) (scan (inside d) source)

-- Inside of an object, pieces leave the scanner as deep as it was.
scan-pieces_onto :
    (pieces : Pieces) (d : ℕ) (source : Text)
    → well_formed pieces ≡ true
    → scan (outside (suc d)) (pieces_onto pieces source)
      ≡ mapped (λ b. pieces_onto pieces b) (scan (outside (suc d)) source)
unfolding well_formed
scan-pieces_onto done d source h = mapped_same (scan (outside (suc d)) source)
scan-pieces_onto (char c rest) d source h =
    let (hc, hr) = and_both (is_plain c) (well_formed rest) h in
    scan-is_plain c (suc d) (pieces_onto rest source) hc
    ∙ rw (scan-pieces_onto rest d source hr)
        (push-mapped c (λ b. pieces_onto rest b) (scan (outside (suc d)) source))
scan-pieces_onto (string parts rest) d source h =
    let (hp, hr) = and_both (all is_part parts) (well_formed rest) h in
    let behind_string = pieces_onto rest source in
    scan_open quote (outside (suc d)) (inside (suc d)) (parts_onto parts (quote ∷ behind_string))
      refl refl
    ∙ rw
        (
          scan-parts_onto parts (suc d) (quote ∷ behind_string) hp,
          scan_open quote (inside (suc d)) (outside (suc d)) behind_string refl refl,
          scan-pieces_onto rest d source hr,
          push-mapped quote (λ b. pieces_onto rest b) (scan (outside (suc d)) source),
          mapped-mapped (λ b. parts_onto parts b) (λ b. quote ∷ pieces_onto rest b)
              (scan (outside (suc d)) source),
        )
        (push-mapped quote (λ b. parts_onto parts (quote ∷ pieces_onto rest b))
          (scan (outside (suc d)) source))
scan-pieces_onto (braces inner rest) d source h =
    let (hi, hr) = and_both (well_formed inner) (well_formed rest) h in
    let behind_object = pieces_onto rest source in
    scan_open open_brace (outside (suc d)) (outside (suc (suc d)))
      (pieces_onto inner (close_brace ∷ behind_object)) refl refl
    ∙ rw
        (
          scan-pieces_onto inner (suc d) (close_brace ∷ behind_object) hi,
          scan_open close_brace (outside (suc (suc d))) (outside (suc d)) behind_object
              (ground arith) refl,
          scan-pieces_onto rest d source hr,
          push-mapped close_brace (λ b. pieces_onto rest b) (scan (outside (suc d)) source),
          mapped-mapped (λ b. pieces_onto inner b) (λ b. close_brace ∷ pieces_onto rest b)
              (scan (outside (suc d)) source),
        )
        (push-mapped open_brace (λ b. pieces_onto inner (close_brace ∷ pieces_onto rest b))
          (scan (outside (suc d)) source))

from_brace-append :
    (prose source : Text)
    → all (λ c. not (c == open_brace)) prose ≡ true
    → from_brace (prose ++ open_brace ∷ source) ≡ some (open_brace ∷ source)
unfolding from_brace
from_brace-append [] source h = refl
from_brace-append (c ∷ prose) source h =
    let (hc, hp) = and_both (not (c == open_brace)) (all (λ x. not (x == open_brace)) prose) h in
    rw (negated (c == open_brace) hc) (from_brace-append prose source hp)

scan-object_onto :
    (pieces : Pieces) (rest : Text)
    → well_formed pieces ≡ true
    → scan fresh_scanner (object_onto pieces rest) ≡ some (object_onto pieces [])
unfolding scan
scan-object_onto pieces rest h =
    scan_open open_brace (outside 0) (outside 1) (pieces_onto pieces (close_brace ∷ rest)) refl refl
    ∙ rw (scan-pieces_onto pieces 0 (close_brace ∷ rest) h) refl

-- An object behind prose without an opening brace is found character for character.
pub outermost_object-object_onto :
    (prose : Text) (pieces : Pieces) (rest : Text)
    → all (λ c. not (c == open_brace)) prose ≡ true
    → well_formed pieces ≡ true
    → outermost_object (prose ++ object_onto pieces rest) ≡ some (object_onto pieces [])
unfolding outermost_object
outermost_object-object_onto prose pieces rest hp hw =
    rw (outermost_object, from_brace-append prose (pieces_onto pieces (close_brace ∷ rest)) hp)
      (scan-object_onto pieces rest hw)
