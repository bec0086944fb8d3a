-- ===== src/Trust/Origins/Sources.antt =====
-- `distinct_origin_sources`: one source for each origin that has one.
use pi_news_aggregator.Prelude.{
  some_inj, In, here, there, In-split, In-append, In-append_left, In-append_right, In-one, ℕ, ◌+◌,
  ◌≤◌, ◌≡◌, refl, sym, ◌∙◌, ap, inl, inr, Option, some, List, [], ◌∷◌, ◌++◌, length,
  length-le_of_injection, Distinct, Dict, get, put, get-put_self, get-put_ne, Text, ◌>>=◌, arith,
  subst, nat_eq, list_eq, if◌then◌else◌, Bool-cases, eq_or_ne, true, nonempty,
}
use pi_news_aggregator.Trust.Edges.{ProvNode, ProvEdge}
use pi_news_aggregator.Trust.Origins.{
  ids, origin_components, independent_origins, group_sources, least, origin_sources, index_nodes,
  distinct_origin_sources,
}
use pi_news_aggregator.Trust.Origins.Least.{
  least-In, add_least, add_least-Distinct, add_least-In, length-add_least,
}
use pi_news_aggregator.Trust.Origins.Classes.{origin_components-Classes}

-- A text that is the source of a node of the story, and is not empty.
pub record IsSource (nodes : List ProvNode) (s : Text) : Type 0 where
  pub node : ProvNode
  pub listed : In node nodes
  pub names : node.source ≡ s
  pub present : nonempty s ≡ true

-- `by_id` has the ids of the nodes, and nodes of the story only.
record Indexed (nodes : List ProvNode) (keyed : List ℕ) (d : Dict ℕ ProvNode) : Type 0 where
  has : (x : ℕ) → In x keyed → (n : ProvNode) × (get x d ≡ some n)
  only : (x : ℕ) (n : ProvNode) → get x d ≡ some n → In n nodes

index_nodes-Indexed :
    (nodes ns : List ProvNode) (keyed : List ℕ) (d : Dict ℕ ProvNode)
    → ((n : ProvNode) → In n ns → In n nodes)
    → Indexed nodes keyed d
    → Indexed nodes (keyed ++ ids ns) (index_nodes ns d)
unfolding index_nodes
index_nodes-Indexed nodes [] keyed d sub inv = record {
  has = λ x m. elim (In-append keyed [] m) [ inl k ↦ inv.has x k | inr k ↦ elim k [ ] ];
  only = inv.only;
}
index_nodes-Indexed nodes (n ∷ ns) keyed d sub inv =
    let d' = put n.item_id n d in
    let ih =
      index_nodes-Indexed nodes ns (keyed ++ n.item_id ∷ []) d' (λ m k. sub m (there k))
        (record {
          has = λ x m. elim (eq_or_ne x n.item_id) [
            | inl q ↦ (n, subst (λ y. get y d' ≡ some n) (sym q) (get-put_self n.item_id n d))
            | inr e ↦ elim (In-append keyed _ m) [
              | inl k ↦ let (v, h) = inv.has x k in (v, get-put_ne n.item_id x n d e ∙ h)
              | inr k ↦ absurd (e (In-one k))
            ]
          ];
          only = λ x m h. elim (eq_or_ne x n.item_id) [
            | inl q ↦
                subst (λ z. In z nodes)
                  (some_inj (sym (get-put_self n.item_id n d) ∙ subst (λ y. get y d' ≡ some m) q h))
                  (sub n (here refl))
            | inr e ↦ inv.only x m (sym (get-put_ne n.item_id x n d e) ∙ h)
          ];
        }) in
    record {
      has = λ x m. elim (In-append keyed _ m) [
        | inl k ↦ ih.has x (In-append_left _ _ (In-append_left keyed _ k))
        | inr k ↦ elim (In-split k) [
          | inl q ↦ ih.has x (In-append_left _ _ (In-append_right keyed _ (here q)))
          | inr j ↦ ih.has x (In-append_right (keyed ++ n.item_id ∷ []) _ j)
        ]
      ];
      only = ih.only;
    }

group_sources-IsSource :
    (nodes : List ProvNode) (d : Dict ℕ ProvNode) (keyed g : List ℕ)
    → Indexed nodes keyed d
    → ((x : ℕ) → In x g → In x keyed)
    → (l : List Text) × (group_sources d g ≡ some l) × ((s : Text) → In s l → IsSource nodes s)
unfolding group_sources
group_sources-IsSource nodes d keyed [] inv sub = ([], refl, λ s m. elim m [ ])
group_sources-IsSource nodes d keyed (x ∷ xs) inv sub =
    let (n, h) = inv.has x (sub x (here refl)) in
    let (l, run, from) = group_sources-IsSource nodes d keyed xs inv (λ y m. sub y (there m)) in
    elim (Bool-cases (nonempty n.source)) [
      | inl t ↦ (
        n.source ∷ l,
        rw (h, ◌>>=◌) (rw (run, ◌>>=◌) (ap some (ap (λ b. if b then n.source ∷ l else l) t))),
        λ s m. elim (In-split m) [
          | inl q ↦ record {
            node = n;
            listed = inv.only x n h;
            names = sym q;
            present = subst (λ z. nonempty z ≡ true) (sym q) t;
          }
          | inr k ↦ from s k
        ],
      )
      | inr f ↦ (
        l,
        rw (h, ◌>>=◌) (rw (run, ◌>>=◌) (ap some (ap (λ b. if b then n.source ∷ l else l) f))),
        from,
      )
    ]

-- The set of sources so far.
pub record Sourced (nodes : List ProvNode) (room : ℕ) (r : Option (List Text)) : Type 0 where
  pub sources : List Text
  pub returned : r ≡ some sources
  pub distinct : Distinct sources
  pub named : (s : Text) → In s sources → IsSource nodes s
  pub fits : length sources ≤ room

origin_sources-Sourced :
    (nodes : List ProvNode) (d : Dict ℕ ProvNode) (keyed : List ℕ) (gs : List (List ℕ))
    (l : List Text)
    → Indexed nodes keyed d
    → ((g : List ℕ) (x : ℕ) → In g gs → In x g → In x keyed)
    → Distinct l
    → ((s : Text) → In s l → IsSource nodes s)
    → Sourced nodes (length l + length gs) (origin_sources d gs l)
unfolding origin_sources
origin_sources-Sourced nodes d keyed [] l inv sub dist named = record {
  sources = l;
  returned = refl;
  distinct = dist;
  named = named;
  fits = omega arith;
}
origin_sources-Sourced nodes d keyed (g ∷ gs) l inv sub dist named =
    let (cs, run, from) =
      group_sources-IsSource nodes d keyed g inv (λ x m. sub g x (here refl) m) in
    let l' = add_least (least cs) l in
    let ih =
      origin_sources-Sourced nodes d keyed gs l' inv (λ h x m k. sub h x (there m) k)
        (add_least-Distinct (least cs) l dist)
        (λ s m. elim (add_least-In (least cs) l s m) [
          | inl k ↦ named s k
          | inr q ↦ from s (least-In cs s q)
        ]) in
    record {
      sources = ih.sources;
      returned = rw (run, ◌>>=◌) ih.returned;
      distinct = ih.distinct;
      named = ih.named;
      fits = omega (arith, ih.fits, length-add_least (least cs) l);
    }

distinct_run :
    (nodes : List ProvNode) (edges : List ProvEdge) (groups : List (List ℕ)) (l : List Text)
    → origin_components nodes edges ≡ some groups
    → origin_sources (index_nodes nodes []) groups [] ≡ some l
    → distinct_origin_sources nodes edges ≡ some (length l)
unfolding distinct_origin_sources
distinct_run nodes edges groups l h k = rw (h, ◌>>=◌) (rw (k, ◌>>=◌) refl)

count_run :
    (nodes : List ProvNode) (edges : List ProvEdge) (groups : List (List ℕ))
    → origin_components nodes edges ≡ some groups
    → independent_origins nodes edges ≡ some (length groups)
unfolding independent_origins
count_run nodes edges groups h = rw (h, ◌>>=◌) refl

-- What `distinct_origin_sources` counts.
pub record SourceCount (nodes : List ProvNode) (edges : List ProvEdge) : Type 0 where
  pub sources : List Text
  pub origins : ℕ
  pub counted : distinct_origin_sources nodes edges ≡ some (length sources)
  pub origins_counted : independent_origins nodes edges ≡ some origins
  pub distinct : Distinct sources
  pub named : (s : Text) → In s sources → IsSource nodes s
  pub fits : length sources ≤ origins

-- `distinct_origin_sources` ends without a KeyError. It counts different sources of the story's
-- items, none of them empty, and no more than there are independent origins.
pub distinct_origin_sources-SourceCount :
    (nodes : List ProvNode) (edges : List ProvEdge) → SourceCount nodes edges
distinct_origin_sources-SourceCount nodes edges =
    let (groups, run, classes) = origin_components-Classes nodes edges in
    let indexed =
      index_nodes-Indexed nodes nodes [] [] (λ n m. m)
        (record { has = λ x m. elim m [ ]; only = λ x n h. unfold get in cc }) in
    let found =
      origin_sources-Sourced nodes (index_nodes nodes []) (ids nodes) groups [] indexed
        classes.members tt (λ s m. elim m [ ]) in
    record {
      sources = found.sources;
      origins = length groups;
      counted = distinct_run nodes edges groups found.sources run found.returned;
      origins_counted = count_run nodes edges groups run;
      distinct = found.distinct;
      named = found.named;
      fits = omega (arith, found.fits);
    }

-- A story whose items all come from one feed spans at most one source.
pub distinct_origin_sources-one_feed :
    (nodes : List ProvNode) (edges : List ProvEdge) (feed : Text)
    → ((n : ProvNode) → In n nodes → n.source ≡ feed)
    → (k : ℕ) × (distinct_origin_sources nodes edges ≡ some k) × (k ≤ 1)
distinct_origin_sources-one_feed nodes edges feed all =
    let c = distinct_origin_sources-SourceCount nodes edges in
    (
      length c.sources,
      c.counted,
      length-le_of_injection (λ (s : Text). s) c.sources (feed ∷ []) c.distinct
          (λ s m. let w = c.named s m in here (sym w.names ∙ all w.node w.listed))
          (λ a b ma mb q. q),
    )
