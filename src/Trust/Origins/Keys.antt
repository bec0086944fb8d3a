-- ===== src/Trust/Origins/Keys.antt =====
-- The dict of the origin keys in `_origin_components`: what it knows of the nodes seen so far.
use pi_news_aggregator.Prelude.{
  some_inj, In, here, In-append, In-append_left, In-append_right, In-one, ℕ, ◌≡◌, refl, sym, ◌∙◌,
  ap, inl, inr, none, some, List, [], ◌∷◌, ◌++◌, nat_eq, list_eq, true, false, eq_or_ne, Dict, get,
  put, get-put_self, get-put_ne, Text, nonempty, subst,
}
use pi_news_aggregator.Trust.UnionFind.Partition.{Coarser}
use pi_news_aggregator.Trust.Edges.{ProvNode, origin_key}

-- `origin_of_key` holds, for the keys of the nodes seen so far, an id of their class.
pub record KeysSeen (known : List ℕ) (seen : List ProvNode) (origin_of_key : Dict Text ℕ)
    (rep : ℕ → ℕ) : Type 0 where
  pub of_node :
      (k : Text) (v : ℕ)
      → get k origin_of_key ≡ some v
      → In v known × ((n : ProvNode) × In n seen × (origin_key n ≡ k) × (rep v ≡ rep n.item_id))
  pub has :
      (n : ProvNode)
      → In n seen
      → nonempty (origin_key n) ≡ true
      → (v : ℕ) × (get (origin_key n) origin_of_key ≡ some v) × (rep v ≡ rep n.item_id)

pub KeysSeen-Coarser :
    {known : List ℕ} {seen : List ProvNode} {d : Dict Text ℕ} {rep rep' : ℕ → ℕ}
    → Coarser rep rep'
    → KeysSeen known seen d rep
    → KeysSeen known seen d rep'
KeysSeen-Coarser c h = record {
  of_node = λ k v q. let (m, w) = h.of_node k v q in (m, (w.0, w.1, w.2, c v (w.0).item_id w.3));
  has = λ n m e. let (v, q, r) = h.has n m e in (v, q, c v n.item_id r);
}

pub KeysSeen-skip :
    {known : List ℕ} {seen : List ProvNode} {d : Dict Text ℕ} {rep : ℕ → ℕ} (n : ProvNode)
    → nonempty (origin_key n) ≡ false
    → KeysSeen known seen d rep
    → KeysSeen known (seen ++ n ∷ []) d rep
KeysSeen-skip {seen = seen} n f ks = record {
  of_node =
      λ k v q. let (m, w) = ks.of_node k v q in (m, (w.0, In-append_left seen _ w.1, w.2, w.3));
  has = λ m i e. elim (In-append seen _ i) [
    | inl k ↦ ks.has m k e
    | inr k ↦ cc (e, f, ap (λ x. nonempty (origin_key x)) (In-one k))
  ];
}

-- A key that is new leads to an id of the node's class.
pub KeysSeen-first :
    {known : List ℕ} {seen : List ProvNode} {d : Dict Text ℕ} {rep : ℕ → ℕ} (n : ProvNode)
    (root : ℕ)
    → get (origin_key n) d ≡ none
    → In root known
    → rep root ≡ rep n.item_id
    → KeysSeen known seen d rep
    → KeysSeen known (seen ++ n ∷ []) (put (origin_key n) root d) rep
KeysSeen-first {known = known} {seen = seen} {d = d} {rep = rep} n root q listed same ks =
    let key = origin_key n in
    record {
      of_node = λ k v h. elim (eq_or_ne k key) [
        | inl e ↦
            let is_root : v ≡ root =
              some_inj (
                sym (subst (λ x. get x (put key root d) ≡ some v) e h) ∙ get-put_self key root d) in
            (
              subst (λ x. In x known) (sym is_root) listed,
              (n, In-append_right seen _ (here refl), sym e, ap rep is_root ∙ same),
            )
        | inr e ↦
            let (m, w) = ks.of_node k v (sym (get-put_ne key k root d e) ∙ h) in
            (m, (w.0, In-append_left seen _ w.1, w.2, w.3))
      ];
      has = λ m i e. elim (In-append seen _ i) [
        | inl k ↦
            let (v, h, r) = ks.has m k e in
            (v, get-put_ne key (origin_key m) root d (λ x. cc (q, h, ap (λ z. get z d) x)) ∙ h, r)
        | inr k ↦ (
          root,
          subst (λ x. get (origin_key x) (put key root d) ≡ some root) (sym (In-one k))
              (get-put_self key root d),
          same ∙ ap (λ (x : ProvNode). rep x.item_id) (sym (In-one k)),
        )
      ];
    }

-- A key that is known leads to an id that is in the node's class by now.
pub KeysSeen-again :
    {known : List ℕ} {seen : List ProvNode} {d : Dict Text ℕ} {rep : ℕ → ℕ} (n : ProvNode) (v : ℕ)
    → get (origin_key n) d ≡ some v
    → rep v ≡ rep n.item_id
    → KeysSeen known seen d rep
    → KeysSeen known (seen ++ n ∷ []) d rep
KeysSeen-again {seen = seen} {d = d} {rep = rep} n v q same ks = record {
  of_node =
      λ k u h. let (m, w) = ks.of_node k u h in (m, (w.0, In-append_left seen _ w.1, w.2, w.3));
  has = λ m i e. elim (In-append seen _ i) [
    | inl k ↦ ks.has m k e
    | inr k ↦ (
      v,
      subst (λ y. get (origin_key y) d ≡ some v) (sym (In-one k)) q,
      same ∙ ap (λ (y : ProvNode). rep y.item_id) (sym (In-one k)),
    )
  ];
}

pub KeysSeen-nil : (known : List ℕ) (rep : ℕ → ℕ) → KeysSeen known [] [] rep
unfolding get
KeysSeen-nil known rep = record { of_node = λ k v h. cc; has = λ n m e. elim m [ ] }

-- Nodes with one origin key share a class, once their keys have been seen.
pub KeysSeen-joins :
    {known : List ℕ} {seen : List ProvNode} {d : Dict Text ℕ} {rep : ℕ → ℕ}
    → KeysSeen known seen d rep
    → (m n : ProvNode) → In m seen
    → In n seen
    → nonempty (origin_key m) ≡ true
    → origin_key m ≡ origin_key n
    → rep m.item_id ≡ rep n.item_id
KeysSeen-joins {d = d} {rep = rep} ks m n im in' e same_key =
    let (v, hv, rv) = ks.has m im e in
    let (w, hw, rw') = ks.has n in' (subst (λ k. nonempty k ≡ true) same_key e) in
    let vw : v ≡ w = some_inj (sym hv ∙ (ap (λ k. get k d) same_key ∙ hw)) in
    sym rv ∙ (ap rep vw ∙ rw')
