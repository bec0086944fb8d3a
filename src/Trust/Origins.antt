-- ===== src/Trust/Origins.antt =====
-- The functions of libs/trust/graph.py: independent origins and their sources.
mod Adding
mod Linking
mod Keys
mod Collapse
pub mod Classes
pub mod Counting
mod Least
pub mod Sources
use pi_news_aggregator.Prelude.{
  ℕ, Bool, true, false, ◌&&◌, Option, none, some, List, [], ◌∷◌, ◌++◌, map, Text, nonempty,
  contains, Dict, get, put, keys, values, length, ◌==◌, nat_eq, list_eq, leb, ltb, if◌then◌else◌,
  ◌>>=◌, text_leb,
}
use pi_news_aggregator.Trust.UnionFind.{Parents, add, find, union, components}
use pi_news_aggregator.Trust.Edges.{ProvNode, ProvEdge, origin_key}

abbrev pub ids : List ProvNode → List ℕ
ids nodes = map (λ (n : ProvNode). n.item_id) nodes

pub add_nodes : List ProvNode → Parents → Parents
unfolding add
add_nodes [] uf = uf
add_nodes (n ∷ ns) uf = add_nodes ns (add n.item_id uf)

-- Edges may reference members that already aged out of the window.
pub link_edges : List ℕ → List ProvEdge → Parents → Option Parents
unfolding union
link_edges known [] uf = some uf
link_edges known (e ∷ es) uf = do
  uf' ← if contains e.src known && contains e.dst known then union e.src e.dst uf else some uf
  link_edges known es uf'

-- `origin_of_key` and the union-find: the state of the second loop.
abbrev pub Keyed : Type 0
Keyed = Dict Text ℕ × Parents

-- The body of the loop, for an id with the key.
pub collapse_at : Text → ℕ → Keyed → Option Keyed
unfolding find union get put
collapse_at key item_id (origin_of_key, uf) = elim (nonempty key) [
  | false ↦ some (origin_of_key, uf)
  | true ↦ do
    (root, uf₁) ← find item_id uf
    elim (get key origin_of_key) [
      | some origin ↦ do uf₂ ← union root origin uf₁; some (origin_of_key, uf₂)
      | none ↦ some (put key root origin_of_key, uf₁)
    ]
]

pub collapse_step : ProvNode → Keyed → Option Keyed
unfolding origin_key collapse_at
collapse_step n st = collapse_at (origin_key n) n.item_id st

pub collapse_keys : List ProvNode → Keyed → Option Keyed
unfolding collapse_step
collapse_keys [] st = some st
collapse_keys (n ∷ ns) st = do st' ← collapse_step n st; collapse_keys ns st'

unfoldable pub origin_components : List ProvNode → List ProvEdge → Option (List (List ℕ))
unfolding add_nodes link_edges collapse_keys components
origin_components [] edges = some []
origin_components (n ∷ ns) edges = do
  let nodes = n ∷ ns
  uf ← link_edges (ids nodes) edges (add_nodes nodes [])
  (seen, uf') ← collapse_keys nodes ([], uf)
  groups ← components uf'
  some (values groups)

unfoldable pub independent_origins : List ProvNode → List ProvEdge → Option ℕ
unfolding origin_components
independent_origins nodes edges = do groups ← origin_components nodes edges; some (length groups)

-- by_id = {n.item_id: n for n in nodes}
pub index_nodes : List ProvNode → Dict ℕ ProvNode → Dict ℕ ProvNode
unfolding put
index_nodes [] d = d
index_nodes (n ∷ ns) d = index_nodes ns (put n.item_id n d)

-- [s for s in (by_id[i].source for i in comp) if s]
pub group_sources : Dict ℕ ProvNode → List ℕ → Option (List Text)
unfolding get
group_sources by_id [] = some []
group_sources by_id (i ∷ is) = do
  n ← get i by_id
  rest ← group_sources by_id is
  some (if nonempty n.source then n.source ∷ rest else rest)

-- sorted(sources)[0], the least in the order of code points
pub least : List Text → Option Text
least [] = none
least (s ∷ ss) = some (elim (least ss) [ none ↦ s | some t ↦ if text_leb s t then s else t ])

-- The representative source of each origin, as a set.
pub origin_sources : Dict ℕ ProvNode → List (List ℕ) → List Text → Option (List Text)
unfolding group_sources least
origin_sources by_id [] sources = some sources
origin_sources by_id (g ∷ gs) sources = do
  comp_sources ← group_sources by_id g
  origin_sources by_id gs (elim (least comp_sources) [
    | none ↦ sources
    | some s ↦ if contains s sources then sources else sources ++ s ∷ []
  ])

unfoldable pub distinct_origin_sources : List ProvNode → List ProvEdge → Option ℕ
unfolding origin_components origin_sources index_nodes
distinct_origin_sources nodes edges = do
  groups ← origin_components nodes edges
  sources ← origin_sources (index_nodes nodes []) groups []
  some (length sources)
