-- ===== src/Enrich/Flush/Drained.antt =====
-- services/enrich/main.py, flush_tallies: the flush is always within the caps of the schema.
use pi_news_aggregator.Prelude.{
  ℕ, zero, suc, ◌≤◌, ◌≡◌, refl, true, false, ltb, le→leb, ltb_false→le, Bool-cases, inl, inr, some,
  [], ◌∷◌, Text, codes, Dict, All, length, length-take, take, nonempty, arith, ◌>>=◌,
}
use pi_news_aggregator.Floats.{Float}
use pi_news_aggregator.Schema.{TallyFlush, check_keys, cap_counts, max_tally_entities}
use pi_news_aggregator.Dedup.{Deduper}
use pi_news_aggregator.Bus.{Reply, Bytes, ScopedPublisher, publish}
use pi_news_aggregator.Enrich.Governor.{GovernorConfig}
use pi_news_aggregator.Enrich.Flush.Frequent.{MostFrequent, All-insert, top_counts-MostFrequent}
use pi_news_aggregator.Enrich.Filter.{drain_mentions}
use pi_news_aggregator.Enrich.Inference.{Inference}
use package.pi_news_aggregator.Enrich.Flush.{
  make_flush, flush_fits, sort_common, top_counts, flush_of, flush_round,
}

-- The keys are texts that the schema takes.
abbrev pub KeysFit : Dict Text ℕ → Type 0
KeysFit d = All (λ (c : Text × ℕ). (nonempty c.0 ≡ true) × (length c.0 ≤ 256)) d

KeysFit→check_keys : (d : Dict Text ℕ) → KeysFit d → check_keys d ≡ true
unfolding check_keys
KeysFit→check_keys [] h = refl
KeysFit→check_keys ((k, n) ∷ d) h = rw (h.0.0, le→leb _ _ h.0.1, KeysFit→check_keys d h.1) refl

sort_common-KeysFit : (d : Dict Text ℕ) → KeysFit d → KeysFit (sort_common d)
unfolding sort_common
sort_common-KeysFit [] h = tt
sort_common-KeysFit ((k, n) ∷ d) h =
    All-insert _ k n (sort_common d) h.0 (sort_common-KeysFit d h.1)

take-KeysFit : (n : ℕ) (d : Dict Text ℕ) → KeysFit d → KeysFit (take n d)
take-KeysFit zero d h = tt
take-KeysFit (suc n) [] h = tt
take-KeysFit (suc n) (c ∷ d) h = (h.0, take-KeysFit n d h.1)

top_counts-KeysFit :
    (d : Dict Text ℕ)
    → KeysFit d
    → KeysFit (top_counts d) × (length (top_counts d) ≤ max_tally_entities)
unfolding top_counts
top_counts-KeysFit d h = elim (Bool-cases (ltb max_tally_entities (length d))) [
  | inl t ↦ rw t (
    take-KeysFit max_tally_entities (sort_common d) (sort_common-KeysFit d h),
    omega (arith, length-take max_tally_entities (sort_common d)),
  )
  | inr f ↦ rw f (h, ltb_false→le max_tally_entities (length d) f)
]

cap_counts_top : (d : Dict Text ℕ) → KeysFit d → cap_counts (top_counts d) ≡ some (top_counts d)
unfolding cap_counts
cap_counts_top d h =
    let (k, l) = top_counts-KeysFit d h in
    rw (within (length (top_counts d)) l, KeysFit→check_keys (top_counts d) k) refl
  where
    within : (n : ℕ) → n ≤ max_tally_entities → ltb max_tally_entities n ≡ false
    within n l = ground (arith, l)

module _ (fl : Float) (ded : Deduper) (cfg : GovernorConfig fl.F)
    (tally_publisher : ScopedPublisher) (to_json : TallyFlush fl.F → Bytes) (replica : Text) where
  -- A round that raises nothing, and what it publishes and leaves.
  pub record Drained (now : ℕ) (reply : Reply) (s : Inference fl ded) : Type 0 where
    pub kept : Dict Text ℕ
    pub frequent : MostFrequent s.filter.mentions kept
    pub returned :
        flush_round fl ded cfg tally_publisher to_json replica now reply s
        ≡ some (record s {
          filter = record { dedup = s.filter.dedup; mentions = [] };
          log =
              (publish tally_publisher reply
                (codes "tally.minute")
                (to_json (flush_of fl ded cfg tally_publisher to_json replica now s kept))
                s.log).1;
        })

  made_flush :
      (now : ℕ) (s : Inference fl ded) (d : Dict Text ℕ)
      → cap_counts d ≡ some d
      → fl.leb (fl.dec 0 0) s.gov.theta ≡ true
      → fl.leb s.gov.theta (fl.dec 1 0) ≡ true
      → length replica ≤ 128
      → make_flush fl ded cfg tally_publisher to_json replica now s d
        ≡ some (flush_of fl ded cfg tally_publisher to_json replica now s d)
  unfolding make_flush flush_fits
  made_flush now s d h a b c = rw (h, ◌>>=◌) (rw (a, b, le→leb _ _ c) refl)

  -- A flush raises nothing if every mentioned name is not empty and has at most 256 characters, however
  -- many there are, the threshold is between 0 and 1, and the replica's name has at most 128 characters.
  -- It publishes all counts, or, of more than 4096, as many as that, with none left out that is higher than
  -- one that is kept. Whether the broker takes the message or not, the mentions start again from none, and
  -- nothing else of the service changes.
  pub flush_round-drains :
      (now : ℕ) (reply : Reply) (s : Inference fl ded)
      → KeysFit s.filter.mentions
      → fl.leb (fl.dec 0 0) s.gov.theta ≡ true
      → fl.leb s.gov.theta (fl.dec 1 0) ≡ true
      → length replica ≤ 128
      → Drained now reply s
  flush_round-drains now reply s h a b c = record {
    kept = top_counts s.filter.mentions;
    frequent = top_counts-MostFrequent s.filter.mentions;
    returned =
        unfold flush_round drain_mentions in
        rw
          (
            made_flush now s (top_counts s.filter.mentions) (cap_counts_top s.filter.mentions h) a b
                c,
            ◌>>=◌,
          )
          refl;
  }
