-- ===== src/Engine/Nodes/Researcher/Dedupe.antt =====
-- That deduplication leaves no chunk twice.
use autonomous_agentic_platf.Prelude.{
  ◌≡◌, refl, inl, inr, true, false, List, [], ◌∷◌, arith, Bool-cases, any, All, All-imp, Floats,
}
use autonomous_agentic_platf.Engine.State.{RetrievedChunk}
use autonomous_agentic_platf.Engine.Nodes.Researcher.{
  same_point, dedupe_from, dedupe, sort_by_score,
}

module _ {F : Type 0} where
  -- No chunk is the same point of the store as one before it.
  abbrev pub NoRepeat : List (RetrievedChunk F) → Type 0
  NoRepeat [] = Unit
  NoRepeat (c ∷ cs) = All (λ d. same_point d c ≡ false) cs × NoRepeat cs

  module _ (seen cs : List (RetrievedChunk F)) (c : RetrievedChunk F) where
    dedupe_from-skip :
        any (same_point c) seen ≡ true → dedupe_from seen (c ∷ cs) ≡ dedupe_from seen cs
    unfolding dedupe_from
    dedupe_from-skip e = rw (dedupe_from, e) refl

    dedupe_from-keep :
        any (same_point c) seen ≡ false → dedupe_from seen (c ∷ cs) ≡ c ∷ dedupe_from (c ∷ seen) cs
    unfolding dedupe_from
    dedupe_from-keep e = rw (dedupe_from, e) refl

  dedupe_from-nothing :
      (seen : List (RetrievedChunk F))
      → All (λ c. any (same_point c) seen ≡ false) (dedupe_from seen [])
  unfolding dedupe_from
  dedupe_from-nothing seen = tt

  dedupe_from-single : (seen : List (RetrievedChunk F)) → NoRepeat (dedupe_from seen [])
  unfolding dedupe_from
  dedupe_from-single seen = tt

  dedupe_from-unseen :
      (seen cs : List (RetrievedChunk F))
      → All (λ c. any (same_point c) seen ≡ false) (dedupe_from seen cs)
  dedupe_from-unseen seen [] = dedupe_from-nothing seen
  dedupe_from-unseen seen (c ∷ cs) = elim (Bool-cases (any (same_point c) seen)) [
    | inl e ↦ rw (dedupe_from-skip seen cs c e) (dedupe_from-unseen seen cs)
    | inr e ↦ rw (dedupe_from-keep seen cs c e) (
      e,
      All-imp (λ d. any (same_point d) (c ∷ seen) ≡ false) (λ d. any (same_point d) seen ≡ false)
          (λ d h. ground arith) (dedupe_from (c ∷ seen) cs) (dedupe_from-unseen (c ∷ seen) cs),
    )
  ]

  dedupe_from-NoRepeat : (seen cs : List (RetrievedChunk F)) → NoRepeat (dedupe_from seen cs)
  dedupe_from-NoRepeat seen [] = dedupe_from-single seen
  dedupe_from-NoRepeat seen (c ∷ cs) = elim (Bool-cases (any (same_point c) seen)) [
    | inl e ↦ rw (dedupe_from-skip seen cs c e) (dedupe_from-NoRepeat seen cs)
    | inr e ↦ rw (dedupe_from-keep seen cs c e) (
      All-imp (λ d. any (same_point d) (c ∷ seen) ≡ false) (λ d. same_point d c ≡ false)
          (λ d h. ground arith) (dedupe_from (c ∷ seen) cs) (dedupe_from-unseen (c ∷ seen) cs),
      dedupe_from-NoRepeat (c ∷ seen) cs,
    )
  ]

-- What deduplication keeps holds no point of the store twice.
pub dedupe-NoRepeat :
    (fl : Floats) (chunks : List (RetrievedChunk fl.Float)) → NoRepeat (dedupe fl chunks)
unfolding dedupe
dedupe-NoRepeat fl chunks = dedupe_from-NoRepeat [] (sort_by_score fl chunks)
