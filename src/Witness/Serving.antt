-- ===== src/Witness/Serving.antt =====
-- The enrichment service, the bus and the dedup stores.
use pi_news_aggregator.Prelude.{
  ℕ, ◌≡◌, ◌⊎◌, refl, Bool, true, false, inl, Option, none, some, List, [], ◌∷◌, Text, codes, In,
  here, suc, get, longest_of, nat_eq, list_eq, arith,
}
use pi_news_aggregator.Floats.Fixed.{fixed, fixed_ordered}
use pi_news_aggregator.Schema.{
  TallyFlush, Entity, SourceClass, place, social, authoritative, Item, merge_entities,
}
use pi_news_aggregator.Schema.Merge.{Merged, merge_entities-Merged}
use pi_news_aggregator.Bus.{Bytes, Reply, acked, publish, consume_batch}
use pi_news_aggregator.Bus.Scope.{Scoped, publish_all, publish_all-Scoped}
use pi_news_aggregator.Bus.Dispositions.{Batch, consume_batch-Batch}
use pi_news_aggregator.Dedup.Memory
use pi_news_aggregator.Enrich.Governor.{default_config, admit}
use pi_news_aggregator.Enrich.Governor.Clamps.{Within}
use pi_news_aggregator.Enrich.Governor.Bounds.{IsConfig, Admission, admit-Admission}
use pi_news_aggregator.Enrich.Flush.Drained.{Drained, flush_round-drains}
use pi_news_aggregator.Enrich.Filter.{count_mentions}
use pi_news_aggregator.Enrich.Inference.{Outcome, Outside, Inference, duplicate, handle}
use pi_news_aggregator.Enrich.Inference.Outcomes.{Accounted, handle_all, handle_all-Accounted}
use pi_news_aggregator.Enrich.Inference.Redelivery.{
  in_memory, in_memory-Remembers, handle-redelivered, Bypassed, handle-Bypassed,
}
use pi_news_aggregator.Gazetteer.{
  match, words, words_from, match_loop, longest, phrase, join, to_entity, to_geo,
}
use package.pi_news_aggregator.Witness.Samples.{
  lower_same, small_gazetteer, item_of, enriched_publisher, broken_parts, outside_now, new_governor,
  new_inference,
}

default-IsConfig : IsConfig fixed fixed_ordered (default_config fixed)
default-IsConfig = record { limits = refl; slew = refl; tighten = refl; relax = refl }

new-Within : Within fixed fixed_ordered (fixed.dec 0 0) (fixed.dec 99 2) (fixed.dec 0 0)
unfolding Within
new-Within = (refl, refl)

admit-Admission_example :
    Admission fixed fixed_ordered
      (default_config fixed)
      (fixed.dec 5 1)
      social
      (fixed.dec 1 0)
      new_governor
      (admit fixed (default_config fixed) (fixed.dec 5 1) social (fixed.dec 1 0) new_governor)
admit-Admission_example =
    admit-Admission fixed fixed_ordered (default_config fixed) (fixed.dec 5 1) social
      (fixed.dec 1 0) new_governor default-IsConfig new-Within

abbrev two_events : List (fixed.F × SourceClass × fixed.F)
two_events = (fixed.dec 5 1, social, fixed.dec 1 0) ∷ (fixed.dec 5 1, social, fixed.dec 2 0) ∷ []

abbrev calls : List (Outside (fixed.F) × Item (fixed.F))
calls =
    (outside_now, item_of social (codes "new york"))
    ∷ (outside_now, item_of social (codes "new york"))
    ∷ []

handle_all-Accounted_example :
    Accounted fixed
      (in_memory 9)
      broken_parts
      calls
      new_inference
      (handle_all fixed (in_memory 9) broken_parts calls new_inference).0
      (handle_all fixed (in_memory 9) broken_parts calls new_inference).1
handle_all-Accounted_example =
    handle_all-Accounted fixed (in_memory 9) broken_parts calls new_inference

abbrev new_york : Entity (fixed.F)
new_york = record { text = codes "New York"; type = place; geo = none }

finds_new_york : match fixed lower_same small_gazetteer (codes "new york") ≡ some (new_york ∷ [])
unfolding match words words_from match_loop longest longest_of phrase join get to_entity to_geo
finds_new_york = refl

abbrev after_failure : Inference fixed (in_memory 9)
after_failure =
    (handle fixed (in_memory 9) broken_parts outside_now (item_of social (codes "new york"))
      new_inference).1

abbrev redelivered : Outcome × Inference fixed (in_memory 9)
redelivered =
    handle fixed (in_memory 9) broken_parts outside_now (item_of social (codes "new york"))
      after_failure

handle-redelivered_example :
    (redelivered.0 ≡ duplicate)
    × (redelivered.1.log ≡ after_failure.log)
    × (redelivered.1.filter.mentions
        ≡ count_mentions lower_same (new_york ∷ []) after_failure.filter.mentions)
handle-redelivered_example =
    handle-redelivered fixed (in_memory 9) broken_parts (item_of social (codes "new york"))
      (new_york ∷ []) finds_new_york outside_now outside_now new_inference (in_memory-Remembers 9)

handle-Bypassed_example : Bypassed fixed (in_memory 9) broken_parts new_inference (
    handle fixed
      (in_memory 9)
      broken_parts
      outside_now
      (item_of authoritative (codes "quake"))
      new_inference)
handle-Bypassed_example =
    handle-Bypassed fixed (in_memory 9) broken_parts outside_now
      (item_of authoritative (codes "quake")) new_inference (inl refl)

abbrev one_call : List (Text × Bytes × Reply)
one_call = (codes "enriched.rss", 1 ∷ [], acked) ∷ []

one_sent :
    In {A = Text × Bytes}
      (codes "enriched.rss", 1 ∷ [])
      (publish_all enriched_publisher one_call [])
unfolding publish_all publish
one_sent = here refl

publish_all-Scoped_example :
    In {A = Text × Bytes} (codes "enriched.rss", 1 ∷ []) []
    ⊎ Scoped enriched_publisher (codes "enriched.rss", 1 ∷ [])
publish_all-Scoped_example =
    publish_all-Scoped enriched_publisher one_call [] (codes "enriched.rss", 1 ∷ []) one_sent

abbrev accept_short : Bytes → Option ℕ
accept_short [] = none
accept_short (b ∷ bs) = some b

abbrev count_calls : ℕ → ℕ → Bool × ℕ
count_calls m s = (true, suc s)

abbrev payloads : List Bytes
payloads = (1 ∷ []) ∷ [] ∷ (1 ∷ 2 ∷ 3 ∷ []) ∷ []

consume_batch-Batch_example :
    Batch 2 accept_short count_calls 0 payloads
      (consume_batch 2 accept_short count_calls payloads 0).0
      (consume_batch 2 accept_short count_calls payloads 0).1
consume_batch-Batch_example = consume_batch-Batch 2 accept_short count_calls payloads 0

first_time : (Memory.seen 2 (codes "a") []).0 ≡ false
unfolding Memory.seen
first_time = refl

merge_entities-Merged_example :
    Merged
      (item_of social (codes "new york"))
      (new_york ∷ new_york ∷ [])
      (merge_entities (item_of social (codes "new york")) (new_york ∷ new_york ∷ []))
merge_entities-Merged_example =
    merge_entities-Merged (item_of social (codes "new york")) (new_york ∷ new_york ∷ [])

-- A service with one mention.
abbrev with_mention : Inference fixed (in_memory 9)
with_mention = record new_inference {
  filter = record { dedup = []; mentions = (codes "rome", 2) ∷ [] };
}

abbrev flush_bytes : TallyFlush (fixed.F) → Bytes
flush_bytes flush = flush.replica

flush_round-drains_example :
    Drained fixed
      (in_memory 9)
      (default_config fixed)
      enriched_publisher
      flush_bytes
      (codes "a")
      61
      acked
      with_mention
flush_round-drains_example =
    flush_round-drains fixed (in_memory 9) (default_config fixed) enriched_publisher flush_bytes
      (codes "a") 61 acked with_mention ((refl, omega arith), tt) refl refl (omega arith)
