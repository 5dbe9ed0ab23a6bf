-- ===== src/Sandbox/Capped.antt =====
-- The log files and the output of the container.
use autonomous_agentic_platf.Prelude.{
  ℕ, zero, suc, ◌+◌, ◌-◌, ◌≤◌, ◌<◌, ◌≡◌, refl, sym, ap, ◌∙◌, ◌⊎◌, inl, inr, List, [], ◌∷◌, ◌++◌,
  map, arith, ltb, leb, ltb→lt, leb→le, le→leb, Bool-cases, length, length-append, joined,
  append_assoc, append-nil, leb-false, ltb-false,
}
use mathlib.Core.Path.{subst}
use autonomous_agentic_platf.Sandbox.Logs.{
  Bytes, truncation_note, Capture, no_capture, take, capture, Captures, pump_logs,
}

take_all : (n : ℕ) (o : Bytes) → length o ≤ n → take n o ≡ o
unfolding take
take_all zero [] h = refl
take_all zero (b ∷ o) h = absurd (omega arith)
take_all (suc n) [] h = refl
take_all (suc n) (b ∷ o) h = ap (λ x. b ∷ x) (take_all n o (omega arith))

take_append : (n : ℕ) (o c : Bytes) → n ≤ length o → take n (o ++ c) ≡ take n o
unfolding take
take_append zero o c h = refl
take_append (suc n) [] c h = absurd (omega arith)
take_append (suc n) (b ∷ o) c h = ap (λ x. b ∷ x) (take_append n o c (omega arith))

take_behind : (n k : ℕ) (o c : Bytes) → n ≡ k + length o → take n (o ++ c) ≡ o ++ take k c
unfolding take
take_behind n k [] c h = ap (λ x. take x c) (omega arith)
take_behind zero k (b ∷ o) c h = absurd (omega arith)
take_behind (suc n) k (b ∷ o) c h = ap (λ x. b ∷ x) (take_behind n k o c (omega arith))

length-take : (n : ℕ) (o : Bytes) → n ≤ length o → length (take n o) ≡ n
unfolding take
length-take zero o h = refl
length-take (suc n) [] h = absurd (omega arith)
length-take (suc n) (b ∷ o) h = ap suc (length-take n o (omega arith))

-- The capture holds all of the output, or is full.
Holds : ℕ → Bytes → Capture → Type 0
Holds limit o s = (s.file ≡ o) × ((s.written ≡ length o) × (length o ≤ limit))

-- What stands behind the first bytes of the output: nothing, or the note if there was more.
abbrev pub IsNote : ℕ → Bytes → Bytes → Type 0
IsNote limit o note = (note ≡ []) ⊎ ((note ≡ truncation_note) × (limit < length o))

Full : ℕ → Bytes → Capture → Type 0
Full limit o s =
    (limit ≤ s.written)
    × ((limit ≤ length o)
        × ((note : Bytes) × ((s.file ≡ take limit o ++ note) × IsNote limit o note)))

Sound : ℕ → Bytes → Capture → Type 0
Sound limit o s = Holds limit o s ⊎ Full limit o s

IsNote-append : (limit : ℕ) (o c note : Bytes) → IsNote limit o note → IsNote limit (o ++ c) note
IsNote-append limit o c note (inl e) = inl e
IsNote-append limit o c note (inr (e, h)) = inr (e, let l = length-append o c in omega arith)

Full-capture :
    (limit b : ℕ) (chunk o : Bytes) (s : Capture)
    → Full limit o s
    → Full limit (o ++ (b ∷ chunk)) (capture limit (b ∷ chunk) s)
unfolding Full capture take
Full-capture limit b chunk o s (hw, (ho, (note, (ef, hn)))) =
    rw (capture, le→leb limit s.written hw)
      (
        hw,
        (
          let l = length-append o (b ∷ chunk) in omega arith,
          (
            note,
            (rw (take_append limit o (b ∷ chunk) ho) ef, IsNote-append limit o (b ∷ chunk) note hn),
          ),
        ),
      )

-- The output reaches the limit before the chunk.
limit_reached :
    (limit : ℕ) (chunk o : Bytes)
    → limit ≤ length o
    → length o ≤ limit
    → o ≡ take limit (o ++ chunk) ++ []
limit_reached limit chunk o h k =
    sym (append-nil (take limit (o ++ chunk)) ∙ (take_append limit o chunk h ∙ take_all limit o k))

-- The output reaches it within the chunk.
limit_crossed :
    (limit : ℕ) (chunk o : Bytes)
    → length o ≤ limit
    → limit - length o < length chunk
    → Full limit (o ++ chunk) (record {
      file = o ++ (take (limit - length o) chunk ++ truncation_note);
      written = length o + length (take (limit - length o) chunk ++ truncation_note);
    })
unfolding Full
limit_crossed limit chunk o h k =
    let l = length-append o chunk in
    let m = length-append (take (limit - length o) chunk) truncation_note in
    let n = length-take (limit - length o) chunk (omega arith) in
    (
      omega arith,
      (
        omega arith,
        (
          truncation_note,
          (
            rw (take_behind limit (limit - length o) o chunk (omega arith))
                (sym (append_assoc o (take (limit - length o) chunk) truncation_note)),
            inr (refl, omega arith),
          ),
        ),
      ),
    )

-- A chunk in front of which all of the output was held.
Holds-capture :
    (limit b : ℕ) (chunk o : Bytes)
    → length o ≤ limit
    → Sound limit
        (o ++ (b ∷ chunk))
        (capture limit (b ∷ chunk) (record { file = o; written = length o }))
unfolding Sound Full Holds capture take
Holds-capture limit b chunk o h =
    let l = length-append o (b ∷ chunk) in
    elim (Bool-cases (leb limit (length o))) [
      | inl full ↦
          let k = leb→le limit (length o) full in
          rw (capture, full)
            (inr (k, (omega arith, ([], (limit_reached limit (b ∷ chunk) o k h, inl refl)))))
      | inr room ↦ elim (Bool-cases (ltb (limit - length o) (length (b ∷ chunk)))) [
        | inl cut ↦
            rw (capture, room, cut)
              (inr (
                limit_crossed limit (b ∷ chunk) o h
                  (ltb→lt (limit - length o) (length (b ∷ chunk)) cut)))
        | inr whole ↦
            let k = leb-false limit (length o) room in
            let j = ltb-false (limit - length o) (length (b ∷ chunk)) whole in
            rw (capture, room, whole) (inl (refl, (sym l, omega arith)))
      ]
    ]

Sound-capture :
    (limit : ℕ) (chunk o : Bytes) (s : Capture)
    → Sound limit o s
    → Sound limit (o ++ chunk) (capture limit chunk s)
unfolding Sound capture Holds
Sound-capture limit [] o s h = rw (append-nil o) h
Sound-capture limit (b ∷ chunk) o s (inl (ef, (ew, hl))) =
    let es =
      ap (λ f. record { file = f; written = s.written }) ef
      ∙ ap (λ w. record { file = o; written = w }) ew in
    subst (λ x. Sound limit (o ++ (b ∷ chunk)) (capture limit (b ∷ chunk) x)) (sym es)
      (Holds-capture limit b chunk o hl)
Sound-capture limit (b ∷ chunk) o s (inr h) = inr (Full-capture limit b chunk o s h)

Sound-pump_logs :
    (limit : ℕ) (stream : List (Bytes × Bytes)) (out err : Bytes) (s : Captures)
    → Sound limit out s.stdout
    → Sound limit err s.stderr
    → Sound limit (out ++ joined (map (λ p. p.0) stream)) (pump_logs limit stream s).stdout
      × Sound limit (err ++ joined (map (λ p. p.1) stream)) (pump_logs limit stream s).stderr
unfolding pump_logs
Sound-pump_logs limit [] out err s ho he = (rw (append-nil out) ho, rw (append-nil err) he)
Sound-pump_logs limit ((a, b) ∷ stream) out err s ho he =
    rw
      (
        ← append_assoc out a (joined (map (λ p. p.0) stream)),
        ← append_assoc err b (joined (map (λ p. p.1) stream)),
      )
      (Sound-pump_logs limit stream (out ++ a) (err ++ b)
        (record { stdout = capture limit a s.stdout; stderr = capture limit b s.stderr })
        (Sound-capture limit a out s.stdout ho) (Sound-capture limit b err s.stderr he))

-- The file is the start of the output, with a note behind it or not.
abbrev pub IsCapped : ℕ → Bytes → Bytes → Type 0
IsCapped limit output file =
    (note : Bytes) × ((file ≡ take limit output ++ note) × IsNote limit output note)

Sound-IsCapped : (limit : ℕ) (o : Bytes) (s : Capture) → Sound limit o s → IsCapped limit o s.file
unfolding Sound Full Holds
Sound-IsCapped limit o s (inl (ef, (ew, hl))) =
    ([], (ef ∙ sym (append-nil (take limit o) ∙ take_all limit o hl), inl refl))
Sound-IsCapped limit o s (inr (hw, (ho, (note, h)))) = (note, h)

-- However the output comes in chunks, each log file holds the first bytes of the output of its
-- stream up to the limit, in their order, and behind them nothing, or, only if there was more,
-- the note of the truncation.
pub pump_logs-IsCapped :
    (limit : ℕ) (stream : List (Bytes × Bytes))
    → let s = pump_logs limit stream (record { stdout = no_capture; stderr = no_capture }) in
      IsCapped limit (joined (map (λ p. p.0) stream)) s.stdout.file
      × IsCapped limit (joined (map (λ p. p.1) stream)) s.stderr.file
unfolding Sound Holds
pump_logs-IsCapped limit stream =
    let start = inl (refl, (refl, omega arith)) in
    let (h, k) =
      Sound-pump_logs limit stream [] [] (record { stdout = no_capture; stderr = no_capture }) start
        start in
    (Sound-IsCapped limit _ _ h, Sound-IsCapped limit _ _ k)
