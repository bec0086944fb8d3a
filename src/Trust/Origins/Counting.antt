-- ===== src/Trust/Origins/Counting.antt =====
-- `independent_origins` counts the classes of dependence, and `distinct_origin_sources` is bounded
-- by that count.
use pi_news_aggregator.Prelude.{
  In, here, there, In-map, In-map_inv, In-keys→get, get→In-keys, ℕ, ◌≤◌, ◌≡◌, refl, sym, ◌∙◌, ap,
  Option, some, List, [], ◌∷◌, map, length, length-map, length-values, length-le_of_injection,
  Distinct, keys, values, ◌>>=◌, arith, subst, nat_eq, list_eq, true, nonempty,
}
use pi_news_aggregator.Trust.Edges.{ProvNode, ProvEdge, origin_key}
use pi_news_aggregator.Trust.UnionFind.Partition.{base}
use pi_news_aggregator.Trust.Origins.{ids, origin_components, independent_origins}
use pi_news_aggregator.Trust.Origins.Classes.{
  Dependent, Grouping, origin_components-Grouping, by_key,
}

-- `n` is the number of classes: no list of ids that meets every class is shorter, and no list of ids
-- with no two dependent is longer.
pub record Counts (nodes : List ProvNode) (edges : List ProvEdge) (n : ℕ) : Type 0 where
  pub at_most :
      (cover : List ℕ)
      → ((x : ℕ) → In x (ids nodes) → (c : ℕ) × In c cover × Dependent nodes edges x c)
      → n ≤ length cover
  pub at_least :
      (apart : List ℕ)
      → Distinct apart
      → ((x : ℕ) → In x apart → In x (ids nodes))
      → ((x y : ℕ) → In x apart → In y apart → Dependent nodes edges x y → x ≡ y)
      → length apart ≤ n

module _ {nodes : List ProvNode} {edges : List ProvEdge} {r : Option (List (List ℕ))}
    (s : Grouping nodes edges r) where
  open s use {rep, out, grouped, known_iff}

  key_of_id : (x : ℕ) → In x (ids nodes) → In (rep x) (keys out)
  key_of_id x m =
      let (g, h, k) = grouped.placed x ((known_iff x).1 m) in get→In-keys (rep x) g out h

  id_of_key : (k : ℕ) → In k (keys out) → (x : ℕ) × In x (ids nodes) × (rep x ≡ k)
  id_of_key k m =
      let (g, h) = In-keys→get k out m in
      let (x, xg) = grouped.inhabited k g h in
      let (e, known) = grouped.of_root k x g h xg in (x, (known_iff x).0 known, e)

  Grouping-Counts : Counts nodes edges (length (values out))
  Grouping-Counts = record {
    at_most = λ cover h. omega (
      arith,
      length-values out,
      length-map cover rep,
      length-le_of_injection (λ (x : ℕ). x) (keys out) (map rep cover) grouped.distinct
          (λ k m.
            let (x, mx, e) = id_of_key k m in
            let (c, mc, d) = h x mx in
            subst (λ z. In z (map rep cover)) (sym ((s.same_iff x c).1 d) ∙ e)
              (In-map cover rep mc))
          (λ a b ma mb q. q),
    );
    at_least = λ apart d sub one. omega (
      arith,
      length-values out,
      length-le_of_injection rep apart (keys out) d (λ x m. key_of_id x (sub x m))
          (λ x y mx my q. one x y mx my ((s.same_iff x y).0 q)),
    );
  }

independent_origins_run :
    (nodes : List ProvNode) (edges : List ProvEdge) (groups : List (List ℕ))
    → origin_components nodes edges ≡ some groups
    → independent_origins nodes edges ≡ some (length groups)
unfolding independent_origins
independent_origins_run nodes edges groups h = rw (h, ◌>>=◌) refl

-- `independent_origins` ends without a KeyError and returns the number of classes of dependence: no
-- list of ids that has one from every class is shorter, and no list of different items of the story
-- with no two dependent is longer.
pub independent_origins-Counts :
    (nodes : List ProvNode) (edges : List ProvEdge)
    → (n : ℕ) × (independent_origins nodes edges ≡ some n) × Counts nodes edges n
independent_origins-Counts [] edges = (
  0,
  independent_origins_run [] edges [] (unfold origin_components in refl),
  record { at_most = λ cover h. omega arith; at_least = λ apart d sub one. none_apart apart sub },
)
  where
    none_apart : (apart : List ℕ) → ((x : ℕ) → In x apart → In x []) → length apart ≤ 0
    none_apart [] sub = omega arith
    none_apart (x ∷ xs) sub = elim (sub x (here refl)) [ ]
independent_origins-Counts (n ∷ ns) edges =
    let s = origin_components-Grouping n ns edges in
    (
      length (values s.out),
      independent_origins_run (n ∷ ns) edges (values s.out) s.returned,
      Grouping-Counts s,
    )

-- A story whose items all have one origin key, as the stations that carry one wire report do, has
-- one independent origin, however many items and whatever edges there are.
pub independent_origins-one_key :
    (n : ProvNode) (ns : List ProvNode) (edges : List ProvEdge)
    → nonempty (origin_key n) ≡ true
    → ((m : ProvNode) → In m ns → origin_key m ≡ origin_key n)
    → independent_origins (n ∷ ns) edges ≡ some 1
independent_origins-one_key n ns edges e same_key =
    let (count, run, counts) = independent_origins-Counts (n ∷ ns) edges in
    let upper = counts.at_most (n.item_id ∷ []) (λ x m. (n.item_id, here refl, to_first x m)) in
    let lower =
      counts.at_least (n.item_id ∷ []) (λ m. elim m [ ], tt) (λ x m. first_listed x m)
        (λ x y mx my d. one_element mx ∙ sym (one_element my)) in
    run ∙ ap some (omega (arith, upper, lower))
  where
    one_element : {x y : ℕ} → In x (y ∷ []) → x ≡ y
    one_element (here q) = q
    one_element (there m) = elim m [ ]

    first_listed : (x : ℕ) → In x (n.item_id ∷ []) → In x (ids (n ∷ ns))
    first_listed x m = here (one_element m)

    key_of : (m : ProvNode) → In m (n ∷ ns) → origin_key m ≡ origin_key n
    key_of m (here q) = ap origin_key q
    key_of m (there k) = same_key m k

    to_first : (x : ℕ) → In x (ids (n ∷ ns)) → Dependent (n ∷ ns) edges x n.item_id
    to_first x m =
        let (a, q, k) = In-map_inv (n ∷ ns) (λ (z : ProvNode). z.item_id) m in
        base (
          by_key a n k (here refl) q refl (subst (λ t. nonempty t ≡ true) (sym (key_of a k)) e)
            (key_of a k))
