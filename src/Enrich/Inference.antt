-- ===== src/Enrich/Inference.antt =====
-- services/enrich/main.py, Inference: one item through tally, dedup, admission and publication. NER,
-- the embedder and JSON are parameters: `none` is an exception.
pub mod Outcomes
pub mod Redelivery
use pi_news_aggregator.Prelude.{
  ℕ, suc, ◌+◌, Bool, true, false, ◌&&◌, leb, Option, none, some, List, [], ◌∷◌, ◌++◌, Text, codes,
  length, ◌>>=◌, if◌then◌else◌, list_eq, nat_eq,
}
use pi_news_aggregator.Floats.{Float}
use pi_news_aggregator.Schema.{Entity, Item, EnrichedItem, merge_entities, embed_dim}
use pi_news_aggregator.Gazetteer.{Gazetteer}
use pi_news_aggregator.Dedup.{Deduper}
use pi_news_aggregator.Bus.{Reply, Bytes, ScopedPublisher, Published, sent, Log, publish}
use pi_news_aggregator.Enrich.Governor.{GovernorConfig, AdmissionGovernor, admit, explore}
use pi_news_aggregator.Enrich.Filter.{CheapFilter, tally, is_duplicate, relevance}

pub record Parts (fl : Float) : Type 0 where
  pub lower : Text → Text
  pub casefold : Text → Text
  pub gaz : Gazetteer fl
  pub score : Text → fl.F
  pub cfg : GovernorConfig fl.F
  pub extract : Text → Option (List (Entity fl.F))
  pub encode : Text → Option (List fl.F)
  pub to_json : EnrichedItem fl.F → Bytes
  pub publisher : ScopedPublisher

pub record Inference (fl : Float) (ded : Deduper) : Type 0 where
  pub filter : CheapFilter ded
  pub gov : AdmissionGovernor fl.F
  pub published : ℕ
  pub shed : ℕ
  pub explored : ℕ
  -- What the broker holds.
  pub log : Log

-- How `handle` ended: by one of its three returns, or by an exception.
pub data Outcome : Type 0 where
  duplicate shed published raised : Outcome

-- What a call of `handle` reads from outside: the clock, random.random(), and the broker's answer.
pub record Outside (F : Type 0) : Type 0 where
  pub now : F
  pub random : F
  pub reply : Reply

-- EnrichedItem(…): `none` is a ValidationError.
unfoldable pub make_enriched : {F : Type 0} → Item F → List F → Bool → Option (EnrichedItem F)
make_enriched item embedding exploration =
    if leb (length embedding) embed_dim && leb embed_dim (length embedding)
    then some (record { item = item; embedding = embedding; exploration = exploration })
    else none

module _ (fl : Float) (ded : Deduper) (parts : Parts fl) where
  -- NER, embedding and the model's checks.
  unfoldable pub enrich : Item fl.F → Bool → Option (EnrichedItem fl.F)
  enrich item exploration = do
    ents ← parts.extract item.text
    vec ← parts.encode item.text
    make_enriched (merge_entities item ents) vec exploration

  unfoldable pub settle : Published × Log → Inference fl ded → Outcome × Inference fl ded
  settle (sent, log) s = (published, record s { published = suc s.published; log = log })
  settle (_, log) s = (raised, record s { log = log })

  -- The part of `handle` after admission.
  unfoldable pub emit : Reply → Item fl.F → Bool → Inference fl ded → Outcome × Inference fl ded
  emit reply item exploration s = elim (enrich item exploration) [
    | none ↦ (raised, s)
    | some enriched ↦
        settle
          (publish parts.publisher reply (codes "enriched." ++ item.source) (parts.to_json enriched)
            s.log)
          s
  ]

  -- The part of `handle` after dedup.
  unfoldable pub gate : Outside fl.F → Item fl.F → Inference fl ded → Outcome × Inference fl ded
  gate out item s =
      let (admitted, gov) =
        admit fl parts.cfg (relevance fl ded parts.score item) item.source_class out.now s.gov in
      let s' = record s { gov = gov } in
      if admitted
      then emit out.reply item false s'
      else if explore fl parts.cfg out.random gov
      then emit out.reply item true (record s' { explored = suc s'.explored })
      else (shed, record s' { shed = suc s'.shed })

  unfoldable pub after_dedup :
      Outside fl.F → Item fl.F → Bool → Inference fl ded → Outcome × Inference fl ded
  after_dedup out item dup s = if dup then (duplicate, s) else gate out item s

  unfoldable pub after_tally :
      Outside fl.F
      → Option (Item fl.F × CheapFilter ded)
      → Inference fl ded
      → Outcome × Inference fl ded
  after_tally out none s = (raised, s)
  after_tally out (some (item, filter)) s =
      let (dup, filter') = is_duplicate fl ded item filter in
      after_dedup out item dup (record s { filter = filter' })

  unfoldable pub handle : Outside fl.F → Item fl.F → Inference fl ded → Outcome × Inference fl ded
  handle out item s =
      after_tally out (tally fl ded parts.lower parts.casefold parts.gaz item s.filter) s
