-- ===== src/Enrich/Inference/Redelivery.antt =====
-- services/enrich/main.py, Inference.handle: an item that comes again, and items that bypass the
-- governor.
use pi_news_aggregator.Prelude.{
  ◌≢◌, ℕ, suc, Bool, true, false, ◌≡◌, refl, ap, ◌∙◌, inl, inr, Option, some, List, [], ◌++◌, Text,
  codes, Bool-cases, Option-cases, list_eq, nat_eq, arith, ◌>>=◌, contains, ◌⊎◌,
}
use pi_news_aggregator.Floats.{Float}
use pi_news_aggregator.Schema.{Item, Entity, SourceClass, authoritative, primary, merge_entities}
use pi_news_aggregator.Schema.Merge.{merge_entities-Merged}
use pi_news_aggregator.Dedup.{Deduper}
use pi_news_aggregator.Dedup.Memory
use pi_news_aggregator.Dedup.Memory.Recall.{seen-recalls}
use pi_news_aggregator.Gazetteer.{match}
use pi_news_aggregator.Bus.{
  Reply, Published, sent, permission_error, value_error, broker_error, Log, publish,
}
use pi_news_aggregator.Enrich.Governor.{bypasses, admit, explore}
use pi_news_aggregator.Enrich.Filter.{
  CheapFilter, key, count_mentions, tally, is_duplicate, relevance,
}
use package.pi_news_aggregator.Enrich.Inference.{
  Parts, Inference, Outcome, shed, duplicate, Outside, enrich, settle, emit, gate, after_dedup,
  after_tally, handle,
}

-- A deduper that knows a key at once after it has seen it.
abbrev pub Remembers : Deduper → Type 0
Remembers ded = (k : Text) (store : ded.Store) → (ded.seen k (ded.seen k store).1).0 ≡ true

-- The store of one process, with room for `suc cap` keys.
abbrev pub in_memory : ℕ → Deduper
in_memory cap = record { Store = List Text; seen = Memory.seen (suc cap) }

seen-again :
    (cap : ℕ) (k : Text) (store : List Text)
    → (Memory.seen (suc cap) k store).0 ≡ true
    → (Memory.seen (suc cap) k (Memory.seen (suc cap) k store).1).0 ≡ true
unfolding Memory.seen
seen-again cap k store h = elim (Bool-cases (contains k store)) [
  | inl t ↦ rw t (rw t refl)
  | inr f ↦ cc (h, rw f at h)
]

-- An in-memory store with room for at least one key remembers: a key that was just asked for is a
-- duplicate.
pub in_memory-Remembers : (cap : ℕ) → Remembers (in_memory cap)
unfolding Memory.see_all
in_memory-Remembers cap k store = elim (Bool-cases (Memory.seen (suc cap) k store).0) [
  | inl t ↦ seen-again cap k store t
  | inr f ↦ seen-recalls (suc cap) k [] store (omega arith) f
]

module _ (fl : Float) (ded : Deduper) (parts : Parts fl) where
  settle-filter :
      (after : Published × Log) (s : Inference fl ded)
      → (settle fl ded parts after s).1.filter ≡ s.filter
  unfolding settle
  settle-filter (sent, log) s = refl
  settle-filter (permission_error, log) s = refl
  settle-filter (value_error, log) s = refl
  settle-filter (broker_error, log) s = refl

  emit-filter :
      (reply : Reply) (item : Item fl.F) (exploration : Bool) (s : Inference fl ded)
      → (emit fl ded parts reply item exploration s).1.filter ≡ s.filter
  unfolding emit
  emit-filter reply item exploration s =
      elim (Option-cases (enrich fl ded parts item exploration)) [
        | inl q ↦ rw (q, emit) refl
        | inr (enriched, q) ↦
            rw (q, emit)
              (settle-filter
                (publish parts.publisher reply (codes "enriched." ++ item.source)
                  (parts.to_json enriched) s.log)
                s)
      ]

  gate-filter :
      (out : Outside fl.F) (item : Item fl.F) (s : Inference fl ded)
      → (gate fl ded parts out item s).1.filter ≡ s.filter
  unfolding gate
  gate-filter out item s =
      let decided =
        admit fl parts.cfg (relevance fl ded parts.score item) item.source_class out.now s.gov in
      let gov = decided.1 in
      elim (Bool-cases decided.0) [
        | inl t ↦ rw t (emit-filter out.reply item false (record s { gov = gov }))
        | inr f ↦ rw f (elim (Bool-cases (explore fl parts.cfg out.random gov)) [
          | inl e ↦
              rw e (
                emit-filter out.reply item true (record s { gov = gov; explored = suc s.explored }))
          | inr n ↦ rw n refl
        ])
      ]

  after_dedup-filter :
      (out : Outside fl.F) (item : Item fl.F) (dup : Bool) (s : Inference fl ded)
      → (after_dedup fl ded parts out item dup s).1.filter ≡ s.filter
  unfolding after_dedup
  after_dedup-filter out item true s = refl
  after_dedup-filter out item false s = gate-filter out item s

  -- The item with its gazetteer hits does not depend on the filter.
  abbrev pub tagged : Item fl.F → Option (Item fl.F)
  tagged item = do hits ← match fl parts.lower parts.gaz item.text; some (merge_entities item hits)

  module _ (item : Item fl.F) (hits : List (Entity fl.F))
      (found : match fl parts.lower parts.gaz item.text ≡ some hits) where
    -- The item with its tags, the filter's answer for it, and the filter after the answer.
    abbrev pub with_hits : Item fl.F
    with_hits = merge_entities item hits

    abbrev pub asked : Inference fl ded → Bool × CheapFilter ded
    asked s = (
      (ded.seen (key with_hits) s.filter.dedup).0,
      record {
        dedup = (ded.seen (key with_hits) s.filter.dedup).1;
        mentions = count_mentions parts.casefold hits s.filter.mentions;
      },
    )

    handle-tallied :
        (out : Outside fl.F) (s : Inference fl ded)
        → handle fl ded parts out item s
          ≡ after_dedup fl ded parts out with_hits (asked s).0 (record s { filter = (asked s).1 })
    unfolding handle after_tally tally is_duplicate
    handle-tallied out s = rw found refl

    handle-filter :
        (out : Outside fl.F) (s : Inference fl ded)
        → (handle fl ded parts out item s).1.filter ≡ (asked s).1
    handle-filter out s =
        ap (λ r. r.1.filter) (handle-tallied out s)
        ∙ after_dedup-filter out with_hits (asked s).0 (record s { filter = (asked s).1 })

    handle-duplicate :
        (out : Outside fl.F) (s : Inference fl ded)
        → (asked s).0 ≡ true
        → handle fl ded parts out item s ≡ (duplicate, record s { filter = (asked s).1 })
    unfolding after_dedup
    handle-duplicate out s h = handle-tallied out s ∙ rw h refl

    -- If the deduper remembers and the gazetteer reads the item's text without an error, an item that was
    -- handled once, however that ended, is a duplicate
    -- when it comes again: nothing is published for it, though it may have raised the first time
    -- before it was published. Its mentions are counted both times.
    pub handle-redelivered :
        (out out' : Outside fl.F) (s : Inference fl ded)
        → Remembers ded
        → let s' = (handle fl ded parts out item s).1 in
          let again = handle fl ded parts out' item s' in
          (again.0 ≡ duplicate)
          × (again.1.log ≡ s'.log)
          × (again.1.filter.mentions ≡ count_mentions parts.casefold hits s'.filter.mentions)
    handle-redelivered out out' s remembers =
        let s' = (handle fl ded parts out item s).1 in
        let known : (asked s').0 ≡ true =
          ap (λ f. (ded.seen (key with_hits) f.dedup).0) (handle-filter out s)
          ∙ remembers (key with_hits) s.filter.dedup in
        let again = handle-duplicate out' s' known in
        (ap (λ r. r.0) again, ap (λ r. r.1.log) again, ap (λ r. r.1.filter.mentions) again)

  -- A call that neither sheds nor asks the governor.
  pub record Bypassed (s : Inference fl ded) (after : Outcome × Inference fl ded) : Type 0 where
    pub unshed : after.0 ≢ shed
    pub gov : after.1.gov ≡ s.gov
    pub shed_count : after.1.shed ≡ s.shed
    pub explored : after.1.explored ≡ s.explored

  settle-Bypassed :
      (after : Published × Log) (s : Inference fl ded) → Bypassed s (settle fl ded parts after s)
  unfolding settle
  settle-Bypassed (sent, log) s = record {
    unshed = λ q. cc q;
    gov = refl;
    shed_count = refl;
    explored = refl;
  }
  settle-Bypassed (permission_error, log) s = record {
    unshed = λ q. cc q;
    gov = refl;
    shed_count = refl;
    explored = refl;
  }
  settle-Bypassed (value_error, log) s = record {
    unshed = λ q. cc q;
    gov = refl;
    shed_count = refl;
    explored = refl;
  }
  settle-Bypassed (broker_error, log) s = record {
    unshed = λ q. cc q;
    gov = refl;
    shed_count = refl;
    explored = refl;
  }

  emit-Bypassed :
      (reply : Reply) (item : Item fl.F) (exploration : Bool) (s : Inference fl ded)
      → Bypassed s (emit fl ded parts reply item exploration s)
  unfolding emit
  emit-Bypassed reply item exploration s =
      elim (Option-cases (enrich fl ded parts item exploration)) [
        | inl q ↦
            rw (q, emit)
              (record { unshed = λ r. cc r; gov = refl; shed_count = refl; explored = refl })
        | inr (enriched, q) ↦
            rw (q, emit)
              (settle-Bypassed
                (publish parts.publisher reply (codes "enriched." ++ item.source)
                  (parts.to_json enriched) s.log)
                s)
      ]

  -- The classes of official sources.
  abbrev pub Official : SourceClass → Type 0
  Official c = (c ≡ authoritative) ⊎ (c ≡ primary)

  Official→bypasses : {c : SourceClass} → Official c → bypasses c ≡ true
  unfolding bypasses
  Official→bypasses (inl q) = rw q refl
  Official→bypasses (inr q) = rw q refl

  gate-Bypassed :
      (out : Outside fl.F) (item : Item fl.F) (s : Inference fl ded)
      → Official item.source_class
      → Bypassed s (gate fl ded parts out item s)
  unfolding gate admit
  gate-Bypassed out item s c = rw (Official→bypasses c) (emit-Bypassed out.reply item false s)

  deduped-Bypassed :
      (out : Outside fl.F) (item : Item fl.F) (dup : Bool) (s : Inference fl ded)
      → Official item.source_class
      → Bypassed s (after_dedup fl ded parts out item dup s)
  unfolding after_dedup
  deduped-Bypassed out item true s c = record {
    unshed = λ q. cc q;
    gov = refl;
    shed_count = refl;
    explored = refl;
  }
  deduped-Bypassed out item false s c = gate-Bypassed out item s c

  -- An item of an authoritative or a primary source is never shed, whatever its relevance, the
  -- threshold and the load: `handle` does not end with shedding, and leaves the governor and the
  -- counters of shed and explored items as they were.
  pub handle-Bypassed :
      (out : Outside fl.F) (item : Item fl.F) (s : Inference fl ded)
      → Official item.source_class
      → Bypassed s (handle fl ded parts out item s)
  handle-Bypassed out item s c = elim (Option-cases (match fl parts.lower parts.gaz item.text)) [
    | inl q ↦
        unfold handle after_tally tally in
        (rw q (record { unshed = λ r. cc r; gov = refl; shed_count = refl; explored = refl }))
    | inr (hits, q) ↦
        let same = ap (λ (i : Item fl.F). i.source_class) (merge_entities-Merged item hits).rest in
        let tagged_class : Official (merge_entities item hits).source_class = elim c [
          | inl a ↦ inl (same ∙ a)
          | inr b ↦ inr (same ∙ b)
        ] in
        let b =
          deduped-Bypassed out (merge_entities item hits) (asked item hits q s).0
            (record s { filter = (asked item hits q s).1 }) tagged_class in
        rw (handle-tallied item hits q out s) (record {
          unshed = b.unshed;
          gov = b.gov;
          shed_count = b.shed_count;
          explored = b.explored;
        })
  ]
