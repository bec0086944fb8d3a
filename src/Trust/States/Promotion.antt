-- ===== src/Trust/States/Promotion.antt =====
-- The promotion rule: what each state needs, and that no state is lost.
use pi_news_aggregator.Prelude.{
  ℕ, ◌≤◌, ◌≡◌, ◌≢◌, ◌↔◌, ◌⊎◌, Bool, true, false, List, ◌∷◌, ◌++◌, some, In, arith, refl, sym, ◌∙◌,
  subst, length, Text, nonempty, codes, contains, list_eq, nat_eq,
}
use pi_news_aggregator.Trust.Edges.{ProvNode, ProvEdge, origin_key, wire_collapse_classes}
use pi_news_aggregator.Trust.Origins.{independent_origins, distinct_origin_sources}
use pi_news_aggregator.Trust.Origins.Counting.{independent_origins-one_key}
use pi_news_aggregator.Trust.Origins.Sources.{
  distinct_origin_sources-SourceCount, distinct_origin_sources-one_feed,
}
use pi_news_aggregator.Trust.States.{
  TrustState, rumor, corroborated, primary_backed, rank, next_state,
}

module _ (current : TrustState) (origins sources : ℕ) (matched : Bool) (n floor : ℕ) where
  -- Whatever the evidence is, the next state of a story ranks no lower than its current one.
  pub next_state_monotone : rank current ≤ rank (next_state current origins sources matched n floor)
  unfolding next_state
  next_state_monotone = ground arith

  -- A story is primary-backed next exactly if it was, or a primary record matched. It is corroborated
  -- next exactly if no record matched, it was not primary-backed, and it was corroborated or has the
  -- origins and the sources that are asked for.
  pub next_state_iff :
      ((next_state current origins sources matched n floor ≡ primary_backed)
        ↔ ((current ≡ primary_backed) ⊎ (matched ≡ true)))
      × ((next_state current origins sources matched n floor ≡ corroborated) ↔ (
          (matched ≡ false)
          × (current ≢ primary_backed)
          × ((current ≡ corroborated) ⊎ (n ≤ origins) × (floor ≤ sources))))
  unfolding next_state
  next_state_iff =
      (((λ h. ground arith), (λ h. ground arith)), ((λ h. ground arith), (λ h. ground arith)))

-- Without a primary record, items of one feed never lift a rumour, however many accounts and
-- whatever edges: they span one source at most, and the floor asks for two.
pub one_feed_stays_rumor :
    (nodes : List ProvNode) (edges : List ProvEdge) (feed : Text) (origins n floor : ℕ)
    → ((m : ProvNode) → In m nodes → m.source ≡ feed)
    → 2 ≤ floor
    → (k : ℕ) × (distinct_origin_sources nodes edges ≡ some k)
      × (next_state rumor origins k false n floor ≡ rumor)
unfolding next_state
one_feed_stays_rumor nodes edges feed origins n floor all h =
    let (k, run, le) = distinct_origin_sources-one_feed nodes edges feed all in
    (k, run, ground arith)

-- An item of an outlet that credits the wire service `w`.
pub record Carries (w : Text) (m : ProvNode) : Type 0 where
  pub outlet : contains m.source_class wire_collapse_classes ≡ true
  pub credit : m.wire_ref ≡ w

pub origin_key-wire :
    (w : Text) (m : ProvNode) → nonempty w ≡ true → Carries w m → origin_key m ≡ codes "wire:" ++ w
unfolding origin_key
origin_key-wire w m e c = rw (c.credit, e, c.outlet) refl

-- Wire copy never lifts a rumour: if every item of a story, which has one at least, is of an outlet
-- class and credits the same service, then, whatever the edges, the story has one independent origin
-- of at most one source, and stays a rumour without a primary record and with a bar of two origins or
-- more.
pub syndication_stays_rumor :
    (w : Text) (first : ProvNode) (rest : List ProvNode) (edges : List ProvEdge) (n floor : ℕ)
    → nonempty w ≡ true
    → Carries w first
    → ((m : ProvNode) → In m rest → Carries w m)
    → 2 ≤ n
    → (k : ℕ) × (independent_origins (first ∷ rest) edges ≡ some 1)
      × (distinct_origin_sources (first ∷ rest) edges ≡ some k)
      × (k ≤ 1)
      × (next_state rumor 1 k false n floor ≡ rumor)
unfolding next_state
syndication_stays_rumor w first rest edges n floor e c all h =
    let key = origin_key-wire w first e c in
    let one =
      independent_origins-one_key first rest edges (subst (λ k. nonempty k ≡ true) (sym key) refl)
        (λ m i. origin_key-wire w m e (all m i) ∙ sym key) in
    let count = distinct_origin_sources-SourceCount (first ∷ rest) edges in
    let same : some count.origins ≡ some 1 = sym count.origins_counted ∙ one in
    (length count.sources, one, count.counted, ground (arith, count.fits), ground arith)
