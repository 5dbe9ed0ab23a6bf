-- ===== src/Engine/Nodes/Researcher/Selection.antt =====
-- What the researcher's selection and its checks promise.
use autonomous_agentic_platf.Prelude.{
  [], ℕ, zero, suc, ◌+◌, ◌≤◌, ◌<◌, String, ◌≡◌, ◌↔◌, inl, inr, Bool, true, false, List, ◌∷◌, arith,
  eq_iff, leb, Bool-cases, length, is_empty, select, count_if, All, contains,
}
use autonomous_agentic_platf.Engine.State.{RetrievedChunk, Sufficiency, is_sufficient}
use autonomous_agentic_platf.Engine.Nodes.Researcher.{
  from_source, diversify_from, diversify, max_chunks_per_source, final_top_k, verify_citations,
  supported_sufficiency,
}

module _ {F : Type 0} where
  diversify_from-length :
      (room : ℕ) (picked cs : List (RetrievedChunk F))
      → length (diversify_from room picked cs) ≤ room
  unfolding diversify_from
  diversify_from-length room picked [] = ground arith
  diversify_from-length zero picked (c ∷ cs) = ground arith
  diversify_from-length (suc room) picked (c ∷ cs) =
      elim (Bool-cases (leb max_chunks_per_source (count_if (from_source c.source_uri) picked))) [
        | inl e ↦ ground (arith, diversify_from-length (suc room) picked cs)
        | inr e ↦ ground (arith, diversify_from-length room (c ∷ picked) cs)
      ]

  diversify_from-sources :
      (uri : String) (room : ℕ) (picked cs : List (RetrievedChunk F))
      → count_if (from_source uri) picked ≤ max_chunks_per_source
      → count_if (from_source uri) (diversify_from room picked cs)
          + count_if (from_source uri) picked
        ≤ max_chunks_per_source
  unfolding diversify_from
  diversify_from-sources uri room picked [] h = ground arith
  diversify_from-sources uri zero picked (c ∷ cs) h = ground arith
  diversify_from-sources uri (suc room) picked (c ∷ cs) h =
      elim (Bool-cases (leb max_chunks_per_source (count_if (from_source c.source_uri) picked))) [
        | inl e ↦ ground (arith, diversify_from-sources uri (suc room) picked cs h)
        | inr e ↦ elim (Bool-cases (from_source uri c)) [
          | inr other ↦
              ground (arith, diversify_from-sources uri room (c ∷ picked) cs (ground arith))
          | inl here ↦
              let same : c.source_uri ≡ uri = (eq_iff _ _).0 here in
              let low : count_if (from_source c.source_uri) picked < max_chunks_per_source =
                ground arith in
              let free : count_if (from_source uri) picked < max_chunks_per_source =
                rw same at low in
              ground (arith, diversify_from-sources uri room (c ∷ picked) cs (ground arith))
        ]
      ]

  -- The researcher hands on at most six chunks, and at most two from any one source.
  pub diversify-bounds :
      (chunks : List (RetrievedChunk F)) (uri : String)
      → (length (diversify chunks) ≤ final_top_k)
        × (count_if (from_source uri) (diversify chunks) ≤ max_chunks_per_source)
  unfolding diversify
  diversify-bounds chunks uri = (
    diversify_from-length final_top_k [] chunks,
    ground (arith, diversify_from-sources uri final_top_k [] chunks (ground arith)),
  )

select-All :
    (known ids : List String)
    → All (λ i. contains i known ≡ true) (select (λ i. contains i known) ids)
select-All known [] = tt
select-All known (i ∷ ids) = elim (Bool-cases (contains i known)) [
  | inl e ↦ rw e (e, select-All known ids)
  | inr e ↦ rw e (select-All known ids)
]

-- Every citation that is kept has chunk ids, and each of them was retrieved.
pub verify_citations-known :
    (known : List String) (cited : List (String × List String))
    → All
        (λ c. (is_empty c.1 ≡ false) × All (λ i. contains i known ≡ true) c.1)
        (verify_citations known cited)
unfolding verify_citations
verify_citations-known known [] = tt
verify_citations-known known ((index, ids) ∷ rest) =
    elim (Bool-cases (is_empty (select (λ i. contains i known) ids))) [
      | inl e ↦ rw e (verify_citations-known known rest)
      | inr e ↦ rw e ((e, select-All known ids), verify_citations-known known rest)
    ]

-- The evidence counts as sufficient exactly when the model says so, no signature was dropped, and
-- something was retrieved.
pub supported_sufficiency-sufficient :
    (claimed : Sufficiency) (dropped no_chunks : Bool)
    → (is_sufficient (supported_sufficiency claimed dropped no_chunks) ≡ true)
      ↔ ((is_sufficient claimed ≡ true) × (dropped ≡ false) × (no_chunks ≡ false))
unfolding supported_sufficiency
supported_sufficiency-sufficient claimed dropped no_chunks =
    (λ h. (ground arith, ground arith, ground arith), λ h. ground arith)
