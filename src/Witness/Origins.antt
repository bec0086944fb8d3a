-- ===== src/Witness/Origins.antt =====
-- The origin count and the trust states, on two copies of a wire report and a post.
use pi_news_aggregator.Prelude.{
  ℕ, ◌≤◌, ◌≡◌, ◌↔◌, ◌≢◌, ◌⊎◌, refl, true, false, some, List, [], ◌∷◌, Text, codes, In, here, there,
  ap, sym, subst, get, arith, nat_eq, list_eq,
}
use pi_news_aggregator.Trust.Edges.{ProvNode, detect_edges, copy}
use pi_news_aggregator.Trust.Edges.Detect.{detect_edges_iff, Witnessed}
use pi_news_aggregator.Trust.Origins.{
  origin_components, independent_origins, distinct_origin_sources,
}
use pi_news_aggregator.Trust.Origins.Classes.{Classes, origin_components-Classes}
use pi_news_aggregator.Trust.Origins.Counting.{Counts, independent_origins-Counts}
use pi_news_aggregator.Trust.Origins.Sources.{SourceCount, distinct_origin_sources-SourceCount}
use pi_news_aggregator.Trust.States.{rumor, corroborated, primary_backed, next_state}
use pi_news_aggregator.Trust.States.Promotion.{
  Carries, next_state_iff, one_feed_stays_rumor, syndication_stays_rumor,
}
use pi_news_aggregator.Trust.UnionFind.{Parents, add}
use pi_news_aggregator.Trust.UnionFind.Forest.{Forest, Forest-nil}
use pi_news_aggregator.Trust.UnionFind.Merge.{add-Forest}
use package.pi_news_aggregator.Witness.Samples.{wire_copy, post, three_nodes, one_edge}

origin_components-Classes_example :
    (groups : List (List ℕ)) × (origin_components three_nodes one_edge ≡ some groups)
    × Classes three_nodes one_edge groups
origin_components-Classes_example = origin_components-Classes three_nodes one_edge

independent_origins-Counts_example :
    (n : ℕ) × (independent_origins three_nodes one_edge ≡ some n) × Counts three_nodes one_edge n
independent_origins-Counts_example = independent_origins-Counts three_nodes one_edge

distinct_origin_sources-SourceCount_example : SourceCount three_nodes one_edge
distinct_origin_sources-SourceCount_example =
    distinct_origin_sources-SourceCount three_nodes one_edge

next_state_iff_example :
    ((next_state rumor 3 2 false 3 2 ≡ primary_backed)
      ↔ ((rumor ≡ primary_backed) ⊎ (false ≡ true)))
    × ((next_state rumor 3 2 false 3 2 ≡ corroborated) ↔ (
        (false ≡ false) × (rumor ≢ primary_backed) × ((rumor ≡ corroborated) ⊎ (3 ≤ 3) × (2 ≤ 2))))
next_state_iff_example = next_state_iff rumor 3 2 false 3 2

same_feed : (m : ProvNode) → In m (post 3 ∷ post 4 ∷ []) → m.source ≡ codes "bluesky"
same_feed m (here q) = ap (λ n. n.source) q
same_feed m (there (here q)) = ap (λ n. n.source) q
same_feed m (there (there k)) = elim k [ ]

one_feed_stays_rumor_example :
    (k : ℕ) × (distinct_origin_sources (post 3 ∷ post 4 ∷ []) [] ≡ some k)
    × (next_state rumor 2 k false 2 2 ≡ rumor)
one_feed_stays_rumor_example =
    one_feed_stays_rumor (post 3 ∷ post 4 ∷ []) [] (codes "bluesky") 2 2 2 same_feed (omega arith)

carries : (id : ℕ) (source : Text) → Carries (codes "reuters") (wire_copy id source)
carries id source = record { outlet = refl; credit = refl }

all_carry : (m : ProvNode) → In m (wire_copy 2 (codes "local") ∷ []) → Carries (codes "reuters") m
all_carry m (here q) = subst (λ n. Carries (codes "reuters") n) (sym q) (carries 2 (codes "local"))
all_carry m (there k) = elim k [ ]

syndication_stays_rumor_example :
    (k : ℕ) × (independent_origins
        (wire_copy 1 (codes "press") ∷ wire_copy 2 (codes "local") ∷ [])
        []
      ≡ some 1)
    × (distinct_origin_sources (wire_copy 1 (codes "press") ∷ wire_copy 2 (codes "local") ∷ []) []
        ≡ some k)
    × (k ≤ 1)
    × (next_state rumor 1 k false 2 2 ≡ rumor)
syndication_stays_rumor_example =
    syndication_stays_rumor (codes "reuters") (wire_copy 1 (codes "press"))
      (wire_copy 2 (codes "local") ∷ []) [] 2 2 refl (carries 1 (codes "press")) all_carry
      (omega arith)

detect_edges_iff_example :
    In
      (record { src = 2; dst = 1; edge_type = copy })
      (detect_edges (wire_copy 2 (codes "local")) three_nodes)
    ↔ Witnessed
        (wire_copy 2 (codes "local"))
        three_nodes
        (record { src = 2; dst = 1; edge_type = copy })
detect_edges_iff_example =
    detect_edges_iff (wire_copy 2 (codes "local")) three_nodes
      (record { src = 2; dst = 1; edge_type = copy })

-- Two elements, each in a set of its own.
abbrev two : Parents
two = add 8 (add 7 [])

two-Forest : Forest two (λ x. x) (λ x. 0)
unfolding add get
two-Forest =
    add-Forest 8 (add 7 []) (λ x. x) (λ x. 0) (add-Forest 7 [] (λ x. x) (λ x. 0) Forest-nil refl)
      refl

parent_seven : get 7 two ≡ some 7
unfolding add get
parent_seven = refl

parent_eight : get 8 two ≡ some 8
unfolding add get
parent_eight = refl
