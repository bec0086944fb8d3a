-- ===== src/Enrich/Filter.antt =====
-- services/enrich/filter.py. The deduper and the classifier are the interfaces that the code takes;
-- str.lower and str.casefold are parameters. A reset to a new classifier is a new parameter.
pub mod Counting
use pi_news_aggregator.Prelude.{
  ℕ, suc, ◌+◌, Bool, true, false, Option, none, some, List, [], ◌∷◌, Text, Dict, get, put, nonempty,
  ◌>>=◌, if◌then◌else◌, list_eq, nat_eq,
}
use pi_news_aggregator.Floats.{Float, fmax, fmin}
use pi_news_aggregator.Schema.{Entity, Item, merge_entities}
use pi_news_aggregator.Gazetteer.{Gazetteer, match}
use pi_news_aggregator.Dedup.{Deduper}

pub record CheapFilter (ded : Deduper) : Type 0 where
  pub dedup : ded.Store
  pub mentions : Dict Text ℕ

-- item.content_hash or item.text
unfoldable pub key : {F : Type 0} → Item F → Text
key item = if nonempty item.content_hash then item.content_hash else item.text

abbrev pub or_zero : Option ℕ → ℕ
or_zero none = 0
or_zero (some n) = n

-- counter[k]
unfoldable pub count_of : Text → Dict Text ℕ → ℕ
count_of k mentions = or_zero (get k mentions)

-- for ent in hits: mentions[ent.text.casefold()] += 1
unfoldable pub count_mentions :
    {F : Type 0} → (Text → Text) → List (Entity F) → Dict Text ℕ → Dict Text ℕ
unfolding count_of
count_mentions casefold [] mentions = mentions
count_mentions casefold (ent ∷ hits) mentions =
    let k = casefold ent.text in
    count_mentions casefold hits (put k (suc (count_of k mentions)) mentions)

module _ (fl : Float) (ded : Deduper) where
  -- `none` is an exception of the gazetteer, before any change.
  unfoldable pub tally :
      (Text → Text)
      → (Text → Text)
      → Gazetteer fl
      → Item fl.F
      → CheapFilter ded
      → Option (Item fl.F × CheapFilter ded)
  tally lower casefold gaz item filter = do
    hits ← match fl lower gaz item.text
    some (
      merge_entities item hits,
      record { dedup = filter.dedup; mentions = count_mentions casefold hits filter.mentions },
    )

  unfoldable pub drain_mentions : CheapFilter ded → Dict Text ℕ × CheapFilter ded
  drain_mentions filter = (filter.mentions, record { dedup = filter.dedup; mentions = [] })

  unfoldable pub is_duplicate : Item fl.F → CheapFilter ded → Bool × CheapFilter ded
  is_duplicate item filter =
      let (dup, dedup) = ded.seen (key item) filter.dedup in
      (dup, record { dedup = dedup; mentions = filter.mentions })

  unfoldable pub relevance : (Text → fl.F) → Item fl.F → fl.F
  relevance score item =
      let text_score = score item.text in
      let with_geo : fl.F = elim item.geo [
        | none ↦ text_score
        | some g ↦ fl.add text_score (fl.dec 15 2)
      ] in
      let with_entities =
        if nonempty item.entities then fl.add with_geo (fl.dec 15 2) else with_geo in
      fmax fl (fl.dec 0 0) (fmin fl (fl.dec 1 0) with_entities)
