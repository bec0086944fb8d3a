-- ===== src/Trust/Origins/Adding.antt =====
-- The loop that adds the nodes leaves every id alone in its class.
use pi_news_aggregator.Prelude.{
  In, here, there, In-split, ◌↔◌, In-append, In-append_left, In-append_right, In-one, get→In-keys,
  ℕ, ◌≡◌, refl, sym, ap, ◌⊎◌, inl, inr, List, [], ◌∷◌, ◌++◌, keys, get, set_default, nat_eq,
  Option-cases, subst,
}
use pi_news_aggregator.Trust.UnionFind.{Parents, add}
use pi_news_aggregator.Trust.UnionFind.Forest.{Forest, Forest-nil}
use pi_news_aggregator.Trust.UnionFind.Merge.{add-Forest}
use pi_news_aggregator.Trust.UnionFind.Partition.{same, Partition}
use pi_news_aggregator.Trust.Edges.{ProvNode}
use pi_news_aggregator.Trust.Origins.{ids, add_nodes}

abbrev alone : ℕ → ℕ
alone x = x

abbrev bottom : ℕ → ℕ
bottom x = 0

keys-append : (p : Parents) (x : ℕ) → keys (p ++ (x, x) ∷ []) ≡ keys p ++ x ∷ []
keys-append [] x = refl
keys-append ((y, z) ∷ p) x = ap (λ l. y ∷ l) (keys-append p x)

record Added (ns : List ProvNode) (p after : Parents) : Type 0 where
  forest : Forest after alone bottom
  old : (x : ℕ) → In x (keys p) → In x (keys after)
  new : (x : ℕ) → In x (ids ns) → In x (keys after)
  only : (x : ℕ) → In x (keys after) → In x (keys p) ⊎ In x (ids ns)

add_nodes-Added :
    (ns : List ProvNode) (p : Parents) → Forest p alone bottom → Added ns p (add_nodes ns p)
unfolding add_nodes
add_nodes-Added [] p inv = record {
  forest = inv;
  old = λ x m. m;
  new = λ x m. elim m [ ];
  only = λ x m. inl m;
}
add_nodes-Added (n ∷ ns) p inv = elim (Option-cases (get n.item_id p)) [
  | inl q ↦
      let p' = p ++ (n.item_id, n.item_id) ∷ [] in
      let e : add n.item_id p ≡ p' = unfold add in rw (q, set_default) refl in
      let ks = keys-append p n.item_id in
      let ih = add_nodes-Added ns p' (add-Forest n.item_id p alone bottom inv q) in
      subst (λ r. Added (n ∷ ns) p (add_nodes ns r)) (sym e)
        (record {
          forest = ih.forest;
          old = λ x m. ih.old x (subst (In x) (sym ks) (In-append_left (keys p) _ m));
          new = λ x m. elim (In-split m) [
            | inl r ↦ ih.old x (subst (In x) (sym ks) (In-append_right (keys p) _ (here r)))
            | inr k ↦ ih.new x k
          ];
          only = λ x m. elim (ih.only x m) [
            | inl k ↦ elim (In-append (keys p) _ (subst (In x) ks k)) [
              | inl a ↦ inl a
              | inr b ↦ inr (here (In-one b))
            ]
            | inr k ↦ inr (there k)
          ];
        })
  | inr (v, q) ↦
      let e : add n.item_id p ≡ p = unfold add in rw (q, set_default) refl in
      let ih = add_nodes-Added ns p inv in
      subst (λ r. Added (n ∷ ns) p (add_nodes ns r)) (sym e)
        (record {
          forest = ih.forest;
          old = ih.old;
          new = λ x m. elim (In-split m) [
            | inl r ↦ ih.old x (subst (λ y. In y (keys p)) (sym r) (get→In-keys n.item_id v p q))
            | inr k ↦ ih.new x k
          ];
          only = λ x m. elim (ih.only x m) [ inl k ↦ inl k | inr k ↦ inr (there k) ];
        })
]

-- The union-find of a story before any link: its ids, each alone.
pub record Start (R : ℕ → ℕ → Type 0) (nodes : List ProvNode) (uf : Parents) : Type 0 where
  pub known : List ℕ
  pub known_iff : (x : ℕ) → In x known ↔ In x (ids nodes)
  pub partition : Partition R known uf (λ x. x)

pub add_nodes-Start :
    (R : ℕ → ℕ → Type 0) (nodes : List ProvNode) → Start R nodes (add_nodes nodes [])
add_nodes-Start R nodes =
    let added = add_nodes-Added nodes [] Forest-nil in
    record {
      known = keys (add_nodes nodes []);
      known_iff =
          λ x. ((λ m. elim (added.only x m) [ inl k ↦ elim k [ ] | inr k ↦ k ]), added.new x);
      partition = record {
        rank = bottom;
        forest = added.forest;
        same_keys = refl;
        sound = λ x y h. same h;
      };
    }
