-- ===== src/Events/Lines/Chunks.antt =====
-- The lines do not depend on where the output is cut into chunks.
use autonomous_agentic_platf.Prelude.{
  ℕ, ◌+◌, ◌≡◌, refl, sym, ap, ◌∙◌, inl, inr, false, List, [], ◌∷◌, ◌++◌, ltb, ◌==◌, Bool-cases,
  joined, append_assoc, append-nil,
}
use autonomous_agentic_platf.Events.Emitter.{Text}
use autonomous_agentic_platf.Events.Lines.{
  split_lines, add_char, newline, Stream, fresh_stream, offer, offer_all, receive, receive_all,
  line_size,
}

add_char-split :
    (c : ℕ) (lines : List Text) (tail ys : Text)
    → add_char c (lines ++ (split_lines (tail ++ ys)).0) (split_lines (tail ++ ys)).1 ≡ (
      (add_char c lines tail).0 ++ (split_lines ((add_char c lines tail).1 ++ ys)).0,
      (split_lines ((add_char c lines tail).1 ++ ys)).1,
    )
unfolding split_lines
add_char-split c [] tail ys = elim (Bool-cases (c == newline)) [
  | inl e ↦ rw e refl
  | inr e ↦ rw (e, e) refl
]
add_char-split c (line ∷ lines) tail ys = elim (Bool-cases (c == newline)) [
  | inl e ↦ rw e refl
  | inr e ↦ rw e refl
]

split_lines-append :
    (xs ys : Text)
    → split_lines (xs ++ ys) ≡ (
      (split_lines xs).0 ++ (split_lines ((split_lines xs).1 ++ ys)).0,
      (split_lines ((split_lines xs).1 ++ ys)).1,
    )
unfolding split_lines
split_lines-append [] ys = refl
split_lines-append (c ∷ xs) ys =
    ap (λ p. add_char c p.0 p.1) (split_lines-append xs ys)
    ∙ add_char-split c (split_lines xs).0 (split_lines xs).1 ys

add_char-plain :
    (c : ℕ) (tail : Text) → (c == newline) ≡ false → add_char c [] tail ≡ ([], c ∷ tail)
add_char-plain c tail e = rw e refl

split_lines-plain :
    (c : ℕ) (tail : Text)
    → (c == newline) ≡ false
    → split_lines tail ≡ ([], tail)
    → split_lines (c ∷ tail) ≡ ([], c ∷ tail)
unfolding split_lines
split_lines-plain c tail e h = ap (λ p. add_char c p.0 p.1) h ∙ add_char-plain c tail e

-- A tail has no newline.
add_char-tail :
    (c : ℕ) (lines : List Text) (tail : Text)
    → split_lines tail ≡ ([], tail)
    → split_lines (add_char c lines tail).1 ≡ ([], (add_char c lines tail).1)
add_char-tail c [] tail h = elim (Bool-cases (c == newline)) [
  | inl e ↦ rw e h
  | inr e ↦ rw e (split_lines-plain c tail e h)
]
add_char-tail c (line ∷ lines) tail h = elim (Bool-cases (c == newline)) [
  | inl e ↦ rw e h
  | inr e ↦ rw e h
]

split_lines-tail : (xs : Text) → split_lines (split_lines xs).1 ≡ ([], (split_lines xs).1)
unfolding split_lines
split_lines-tail [] = refl
split_lines-tail (c ∷ xs) =
    add_char-tail c (split_lines xs).0 (split_lines xs).1 (split_lines-tail xs)

module _ (max_bytes : ℕ) where
  offer_all-append :
      (first second : List Text) (s : Stream)
      → offer_all max_bytes (first ++ second) s
        ≡ offer_all max_bytes second (offer_all max_bytes first s)
  unfolding offer_all
  offer_all-append [] second s = refl
  offer_all-append (line ∷ first) second s = offer_all-append first second (offer max_bytes line s)

  -- `_offer` neither reads nor writes the held tail.
  offer-partial :
      (line tail : Text) (s : Stream)
      → offer max_bytes line (record s { partial = tail })
        ≡ record (offer max_bytes line s) { partial = tail }
  unfolding offer
  offer-partial line tail s = elim (Bool-cases (ltb max_bytes (s.bytes + line_size line))) [
    | inl e ↦ rw e refl
    | inr e ↦ rw e refl
  ]

  pub offer_all-partial :
      (lines : List Text) (tail : Text) (s : Stream)
      → offer_all max_bytes lines (record s { partial = tail })
        ≡ record (offer_all max_bytes lines s) { partial = tail }
  unfolding offer_all
  offer_all-partial [] tail s = refl
  offer_all-partial (line ∷ lines) tail s =
      rw (offer-partial line tail s) (offer_all-partial lines tail (offer max_bytes line s))

  receive-append :
      (first second : Text) (s : Stream)
      → receive max_bytes second (receive max_bytes first s) ≡ receive max_bytes (first ++ second) s
  unfolding receive
  receive-append first second s =
      let (lines, tail) = split_lines (s.partial ++ first) in
      let (more, rest) = split_lines (tail ++ second) in
      let held : (receive max_bytes first s).partial ≡ tail =
        ap (λ r. r.partial) (offer_all-partial lines tail s) in
      let kept : split_lines ((receive max_bytes first s).partial ++ second) ≡ (more, rest) =
        ap (λ t. split_lines (t ++ second)) held in
      ap (λ p. offer_all max_bytes p.0 (record (receive max_bytes first s) { partial = p.1 })) kept
      ∙ ap (λ r. offer_all max_bytes more (record r { partial = rest }))
          (offer_all-partial lines tail s)
      ∙ ap (offer_all max_bytes more) (sym (offer_all-partial lines rest s))
      ∙ sym (offer_all-append lines more (record s { partial = rest }))
      ∙ ap (λ p. offer_all max_bytes p.0 (record s { partial = p.1 }))
          (sym (
            ap split_lines (sym (append_assoc s.partial first second))
            ∙ split_lines-append (s.partial ++ first) second))

  receive-nil : (s : Stream) → split_lines s.partial ≡ ([], s.partial) → receive max_bytes [] s ≡ s
  unfolding receive offer_all
  receive-nil s h =
      ap (λ p. offer_all max_bytes p.0 (record s { partial = p.1 }))
        (ap split_lines (append-nil s.partial) ∙ h)

  receive-tail :
      (chunk : Text) (s : Stream)
      → split_lines (receive max_bytes chunk s).partial ≡ ([], (receive max_bytes chunk s).partial)
  unfolding receive
  receive-tail chunk s =
      let (lines, tail) = split_lines (s.partial ++ chunk) in
      let kept : (receive max_bytes chunk s).partial ≡ tail =
        ap (λ r. r.partial) (offer_all-partial lines tail s) in
      ap split_lines kept ∙ split_lines-tail (s.partial ++ chunk) ∙ ap (λ x. ([], x)) (sym kept)

  pub receive_all-joined :
      (chunks : List Text) (s : Stream)
      → split_lines s.partial ≡ ([], s.partial)
      → receive_all max_bytes chunks s ≡ receive max_bytes (joined chunks) s
  unfolding receive_all
  receive_all-joined [] s h = sym (receive-nil s h)
  receive_all-joined (chunk ∷ chunks) s h =
      receive_all-joined chunks (receive max_bytes chunk s) (receive-tail chunk s)
      ∙ receive-append chunk (joined chunks) s

  -- The lines that are offered, the bytes that are counted and the tail that is held depend only
  -- on the output, not on where it was cut into chunks.
  pub receive_all-chunking :
      (first second : List Text)
      → joined first ≡ joined second
      → receive_all max_bytes first fresh_stream ≡ receive_all max_bytes second fresh_stream
  unfolding split_lines
  receive_all-chunking first second h =
      receive_all-joined first fresh_stream refl
      ∙ ap (λ text. receive max_bytes text fresh_stream) h
      ∙ sym (receive_all-joined second fresh_stream refl)
