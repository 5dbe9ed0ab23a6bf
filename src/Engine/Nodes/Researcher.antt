-- ===== src/Engine/Nodes/Researcher.antt =====
-- backend/app/engine/nodes/researcher.py: what the node makes of the retrieved chunks and of the
-- model's extraction. The queries, the prompts and the store are left out.
pub mod Selection
pub mod Dedupe
use autonomous_agentic_platf.Prelude.{
  [], ℕ, zero, suc, String, Bool, true, false, not, ◌&&◌, some, List, ◌∷◌, str_eq, leb,
  if◌then◌else◌, is_empty, any, select, count_if, contains, Floats,
}
use autonomous_agentic_platf.Engine.State.{
  Update, ContextPack, RetrievedChunk, Sufficiency, no_update, Usage, partially, insufficient,
  is_sufficient, is_insufficient,
}

abbrev pub final_top_k : ℕ
final_top_k = 6

abbrev pub max_chunks_per_source : ℕ
max_chunks_per_source = 2

-- `_Extraction`, the model's reading of the chunks.
pub record Extraction : Type 0 where
  pub key_facts : List String
  pub api_signatures : List String
  pub citations : List (String × List String)
  pub sufficiency : Sufficiency
  pub gaps : List String

module _ (fl : Floats) where
  open fl use {Float, lt as lt_float}

  -- `sorted(chunks, key=lambda c: c.score, reverse=True)`, which keeps the order of equal scores.
  unfoldable pub insert_by_score :
      RetrievedChunk Float → List (RetrievedChunk Float) → List (RetrievedChunk Float)
  insert_by_score c [] = c ∷ []
  insert_by_score c (d ∷ ds) =
      if lt_float c.score d.score then d ∷ insert_by_score c ds else c ∷ d ∷ ds

  unfoldable pub sort_by_score : List (RetrievedChunk Float) → List (RetrievedChunk Float)
  unfolding insert_by_score
  sort_by_score [] = []
  sort_by_score (c ∷ cs) = insert_by_score c (sort_by_score cs)

module _ {F : Type 0} where
  abbrev pub same_point : RetrievedChunk F → RetrievedChunk F → Bool
  same_point c d = str_eq c.collection d.collection && str_eq c.point_id d.point_id

  -- The loop of `_dedupe` over the sorted chunks; `seen` holds the chunks that were kept.
  unfoldable pub dedupe_from :
      List (RetrievedChunk F) → List (RetrievedChunk F) → List (RetrievedChunk F)
  dedupe_from seen [] = []
  dedupe_from seen (c ∷ cs) = elim (any (same_point c) seen) [
    | true ↦ dedupe_from seen cs
    | false ↦ c ∷ dedupe_from (c ∷ seen) cs
  ]

  abbrev pub from_source : String → RetrievedChunk F → Bool
  from_source uri c = str_eq c.source_uri uri

  -- The loop of `_diversify`: `picked` holds the chunks that were picked, newest first, and `room`
  -- is how many more it may pick.
  unfoldable pub diversify_from :
      ℕ → List (RetrievedChunk F) → List (RetrievedChunk F) → List (RetrievedChunk F)
  diversify_from room picked [] = []
  diversify_from zero picked (c ∷ cs) = []
  diversify_from (suc room) picked (c ∷ cs) =
      elim (leb max_chunks_per_source (count_if (from_source c.source_uri) picked)) [
        | true ↦ diversify_from (suc room) picked cs
        | false ↦ c ∷ diversify_from room (c ∷ picked) cs
      ]

  unfoldable pub diversify : List (RetrievedChunk F) → List (RetrievedChunk F)
  unfolding diversify_from
  diversify chunks = diversify_from final_top_k [] chunks

module _ (fl : Floats) where
  -- `_dedupe`
  unfoldable pub dedupe : List (RetrievedChunk fl.Float) → List (RetrievedChunk fl.Float)
  unfolding dedupe_from sort_by_score
  dedupe chunks = dedupe_from [] (sort_by_score fl chunks)

-- `_verify_citations`, with the empty entries dropped.
unfoldable pub verify_citations :
    List String → List (String × List String) → List (String × List String)
verify_citations known [] = []
verify_citations known ((index, ids) ∷ rest) =
    let kept = select (λ i. contains i known) ids in
    let others = verify_citations known rest in
    if is_empty kept then others else (index, kept) ∷ others

-- What the evidence leaves of the sufficiency that the model claims: `dropped` for a signature that
-- was not found, `no_chunks` for an empty retrieval.
unfoldable pub supported_sufficiency : Sufficiency → Bool → Bool → Sufficiency
supported_sufficiency claimed dropped no_chunks =
    let checked = if dropped && is_sufficient claimed then partially else claimed in
    if no_chunks && not (is_insufficient checked) then insufficient else checked

module _ {F : Type 0} where
  unfoldable pub research_update : ContextPack F → Usage → Update F
  research_update pack usage = record no_update {
    context_pack = some (some pack);
    context_history = pack ∷ [];
    usage = some usage;
  }

  -- `degraded_context_pack`
  abbrev pub degraded_pack : ContextPack F
  degraded_pack = record {
    query_plan = [];
    chunks = [];
    key_facts = [];
    api_signatures = [];
    citations = [];
    sufficiency = insufficient;
    gaps = "retrieval was unavailable for this round" ∷ [];
  }
