-- ===== src/Trust/Origins/Classes.antt =====
-- `_origin_components` returns the classes of the relation that edges and shared keys generate.
use pi_news_aggregator.Prelude.{
  some_inj, In, In-map, ℕ, ◌≡◌, ◌↔◌, refl, sym, ◌∙◌, ap, Option, some, List, [], ◌∷◌, get→In-values,
  In-values→get, nat_eq, Dict, get, values, Text, nonempty, ◌>>=◌, subst, true,
}
use pi_news_aggregator.Trust.UnionFind.{Parents, components}
use pi_news_aggregator.Trust.UnionFind.Partition.{Linked, Linked-elim}
use pi_news_aggregator.Trust.UnionFind.Groups.{Grouped, components-Grouped}
use pi_news_aggregator.Trust.Edges.{ProvNode, ProvEdge, origin_key}
use pi_news_aggregator.Trust.Origins.{
  ids, add_nodes, link_edges, collapse_keys, origin_components, Keyed,
}
use pi_news_aggregator.Trust.Origins.Adding.{add_nodes-Start}
use pi_news_aggregator.Trust.Origins.Linking.{EdgesJoined, link_edges-EdgesJoined}
use pi_news_aggregator.Trust.Origins.Keys.{KeysSeen-nil, KeysSeen-joins}
use pi_news_aggregator.Trust.Origins.Collapse.{Stepped, collapse_keys-Stepped}

-- Two ids of the story depend on one another: an edge joins them, or they have the same origin key.
pub data Related (nodes : List ProvNode) (edges : List ProvEdge) : ℕ → ℕ → Type 0 where
  by_edge :
      {x y : ℕ} (e : ProvEdge)
      → In e edges
      → e.src ≡ x
      → e.dst ≡ y
      → In x (ids nodes)
      → In y (ids nodes)
      → Related nodes edges x y
  by_key :
      {x y : ℕ} (m n : ProvNode)
      → In m nodes
      → In n nodes
      → m.item_id ≡ x
      → n.item_id ≡ y
      → nonempty (origin_key m) ≡ true
      → origin_key m ≡ origin_key n
      → Related nodes edges x y

-- A chain of such dependencies, in either direction.
abbrev pub Dependent : List ProvNode → List ProvEdge → ℕ → ℕ → Type 0
Dependent nodes edges = Linked (Related nodes edges)

abbrev pub SameGroup : List (List ℕ) → ℕ → ℕ → Type 0
SameGroup groups x y = (g : List ℕ) × In g groups × In x g × In y g

-- The union-find after both loops, and its groups.
pub record Grouping (nodes : List ProvNode) (edges : List ProvEdge) (r : Option (List (List ℕ)))
    : Type 0 where
  pub rep : ℕ → ℕ
  pub known : List ℕ
  pub known_iff : (x : ℕ) → In x known ↔ In x (ids nodes)
  pub out : Dict ℕ (List ℕ)
  pub returned : r ≡ some (values out)
  pub grouped : Grouped rep known out
  pub same_iff : (x y : ℕ) → (rep x ≡ rep y) ↔ Dependent nodes edges x y

-- The loops, composed.
components_run :
    (n : ProvNode) (ns : List ProvNode) (edges : List ProvEdge) (uf : Parents) (d : Dict Text ℕ)
    (uf' : Parents) (out : Dict ℕ (List ℕ))
    → link_edges (ids (n ∷ ns)) edges (add_nodes (n ∷ ns) []) ≡ some uf
    → collapse_keys (n ∷ ns) ([], uf) ≡ some (d, uf')
    → components uf' ≡ some out
    → origin_components (n ∷ ns) edges ≡ some (values out)
unfolding origin_components
components_run n ns edges uf d uf' out h k c = rw (h, ◌>>=◌) (rw (k, ◌>>=◌) (rw (c, ◌>>=◌) refl))

pub origin_components-Grouping :
    (n : ProvNode) (ns : List ProvNode) (edges : List ProvEdge)
    → Grouping (n ∷ ns) edges (origin_components (n ∷ ns) edges)
origin_components-Grouping n ns edges =
    let nodes = n ∷ ns in
    let R = Related nodes edges in
    let start = add_nodes-Start R nodes in
    let joined =
      link_edges-EdgesJoined R start.known (ids nodes) edges (add_nodes nodes []) (λ x. x)
        start.partition (λ x. (start.known_iff x).1)
        (λ e m inside. by_edge e m refl refl inside.0 inside.1) in
    let keyed =
      collapse_keys-Stepped R start.known nodes (λ a b ma mb e q. by_key a b ma mb refl refl e q)
        (λ a m. (start.known_iff a.item_id).1 (In-map nodes (λ (x : ProvNode). x.item_id) m)) nodes
        [] [] joined.after joined.rep' (λ m k. k) (λ m k. elim k [ ]) joined.partition
        (KeysSeen-nil start.known joined.rep') in
    let (out, run, grouped) =
      components-Grouped start.known keyed.rep' keyed.after keyed.partition in
    record {
      rep = keyed.rep';
      known = start.known;
      known_iff = start.known_iff;
      out = out;
      returned =
          components_run n ns edges joined.after keyed.origin_of_key keyed.after out joined.returned
            keyed.returned run;
      grouped = grouped;
      same_iff =
          λ x y. (keyed.partition.sound x y, Linked-elim keyed.rep' (relates joined keyed) x y);
    }
  where
    relates :
        {start : List ℕ} {r : Option Parents} {s : Option Keyed}
        (j : EdgesJoined (Related (n ∷ ns) edges) start (ids (n ∷ ns)) edges (λ x. x) r)
        (k : Stepped (Related (n ∷ ns) edges) start (n ∷ ns) j.rep' s) (x y : ℕ)
        → Related (n ∷ ns) edges x y
        → k.rep' x ≡ k.rep' y
    relates j k x y (by_edge e m qs qd mx my) = k.coarser x y (
        sym (ap j.rep' qs)
        ∙ (j.joined e m (
          subst (λ z. In z (ids (n ∷ ns))) (sym qs) mx,
          subst (λ z. In z (ids (n ∷ ns))) (sym qd) my,
        )
            ∙ ap j.rep' qd))
    relates j k x y (by_key a b ma mb qa qb e q) =
        sym (ap k.rep' qa) ∙ (KeysSeen-joins k.keys_seen a b ma mb e q ∙ ap k.rep' qb)

-- The groups are the classes of the story's ids under dependence: each id is in one, a group has
-- only ids of the story and at least one, and two ids share a group exactly if they depend on one
-- another.
pub record Classes (nodes : List ProvNode) (edges : List ProvEdge) (groups : List (List ℕ))
    : Type 0 where
  pub covered : (x : ℕ) → In x (ids nodes) → (g : List ℕ) × In g groups × In x g
  pub members : (g : List ℕ) (x : ℕ) → In g groups → In x g → In x (ids nodes)
  pub inhabited : (g : List ℕ) → In g groups → (x : ℕ) × In x g
  pub same_iff :
      (x y : ℕ)
      → In x (ids nodes)
      → In y (ids nodes)
      → SameGroup groups x y ↔ Dependent nodes edges x y

module _ {nodes : List ProvNode} {edges : List ProvEdge} {r : Option (List (List ℕ))}
    (s : Grouping nodes edges r) where
  open s use {rep, out, grouped, known_iff}

  Grouping-Classes : Classes nodes edges (values out)
  Grouping-Classes = record {
    covered = λ x m.
        let (g, h, k) = grouped.placed x ((known_iff x).1 m) in
        (g, get→In-values (rep x) g out h, k);
    members = λ g x mg mx.
        let (r, h) = In-values→get g out grouped.distinct mg in
        (known_iff x).0 (grouped.of_root r x g h mx).1;
    inhabited =
        λ g mg. let (r, h) = In-values→get g out grouped.distinct mg in grouped.inhabited r g h;
    same_iff = λ x y mx my. (
      λ (g, mg, xg, yg).
          let (r, h) = In-values→get g out grouped.distinct mg in
          (s.same_iff x y).0 ((grouped.of_root r x g h xg).0 ∙ sym (grouped.of_root r y g h yg).0),
      λ l.
          let (g, h, k) = grouped.placed x ((known_iff x).1 mx) in
          let (g', h', k') = grouped.placed y ((known_iff y).1 my) in
          let e = (s.same_iff x y).1 l in
          let q : g ≡ g' = some_inj (sym h ∙ (ap (λ z. get z out) e ∙ h')) in
          (g, get→In-values (rep x) g out h, k, subst (In y) (sym q) k'),
    );
  }

-- `_origin_components` ends without a KeyError. Each item is in a group, each group has an item and
-- only the story's items, and two items are in one group exactly if they depend on each other: a chain
-- of edges between the story's items and of shared origin keys, in either direction, links them.
pub origin_components-Classes :
    (nodes : List ProvNode) (edges : List ProvEdge)
    → (groups : List (List ℕ)) × (origin_components nodes edges ≡ some groups)
      × Classes nodes edges groups
origin_components-Classes [] edges = (
  [],
  unfold origin_components in refl,
  record {
    covered = λ x m. elim m [ ];
    members = λ g x mg mx. elim mg [ ];
    inhabited = λ g mg. elim mg [ ];
    same_iff = λ x y mx my. elim mx [ ];
  },
)
origin_components-Classes (n ∷ ns) edges =
    let s = origin_components-Grouping n ns edges in (values s.out, s.returned, Grouping-Classes s)
