-- ===== src/Trust/Origins/Collapse.antt =====
-- What the loop over the origin keys joins.
use pi_news_aggregator.Prelude.{
  In, here, there, In-append, In-one, ℕ, ◌≡◌, refl, sym, ◌∙◌, inl, inr, Option, none, some, List,
  [], ◌∷◌, ◌++◌, nat_eq, list_eq, true, false, Bool-cases, Option-cases, Dict, get, put, Text,
  nonempty, ◌>>=◌, subst, append-nil, append_assoc,
}
use pi_news_aggregator.Trust.UnionFind.{Parents, union, find}
use pi_news_aggregator.Trust.UnionFind.Merge.{merge}
use pi_news_aggregator.Trust.UnionFind.Partition.{
  Linked, base, back, chain, Partition, Coarser, union-Partition, find-Partition, rep-In, rep-rep,
  merge-Coarser, merge_joins,
}
use pi_news_aggregator.Trust.Edges.{ProvNode, origin_key}
use pi_news_aggregator.Trust.Origins.{Keyed, collapse_at, collapse_step, collapse_keys}
use pi_news_aggregator.Trust.Origins.Keys.{
  KeysSeen, KeysSeen-Coarser, KeysSeen-skip, KeysSeen-first, KeysSeen-again,
}

-- The state after a step or more.
pub record Stepped (R : ℕ → ℕ → Type 0) (known : List ℕ) (seen : List ProvNode) (rep : ℕ → ℕ)
    (r : Option Keyed) : Type 0 where
  pub origin_of_key : Dict Text ℕ
  pub after : Parents
  pub rep' : ℕ → ℕ
  pub returned : r ≡ some (origin_of_key, after)
  pub partition : Partition R known after rep'
  pub coarser : Coarser rep rep'
  pub keys_seen : KeysSeen known seen origin_of_key rep'

collapse_at_skip :
    (key : Text) (i : ℕ) (d : Dict Text ℕ) (p : Parents)
    → nonempty key ≡ false
    → collapse_at key i (d, p) ≡ some (d, p)
unfolding collapse_at
collapse_at_skip [] i d p f = refl
collapse_at_skip (c ∷ cs) i d p f = cc

collapse_at_first :
    (key : Text) (i root : ℕ) (d : Dict Text ℕ) (p p₁ : Parents)
    → nonempty key ≡ true
    → find i p ≡ some (root, p₁)
    → get key d ≡ none
    → collapse_at key i (d, p) ≡ some (put key root d, p₁)
unfolding collapse_at
collapse_at_first [] i root d p p₁ t found q = cc
collapse_at_first (c ∷ cs) i root d p p₁ t found q = rw (found, ◌>>=◌) (rw q refl)

collapse_at_again :
    (key : Text) (i root v : ℕ) (d : Dict Text ℕ) (p p₁ p₂ : Parents)
    → nonempty key ≡ true
    → find i p ≡ some (root, p₁)
    → get key d ≡ some v
    → union root v p₁ ≡ some p₂
    → collapse_at key i (d, p) ≡ some (d, p₂)
unfolding collapse_at
collapse_at_again [] i root v d p p₁ p₂ t found q joined = cc
collapse_at_again (c ∷ cs) i root v d p p₁ p₂ t found q joined =
    rw (found, ◌>>=◌) (rw q (rw (joined, ◌>>=◌) refl))

collapse_step-eq :
    (n : ProvNode) (st : Keyed) → collapse_step n st ≡ collapse_at (origin_key n) n.item_id st
unfolding collapse_step
collapse_step-eq n st = refl

module _ (R : ℕ → ℕ → Type 0) (known : List ℕ) (nodes : List ProvNode)
    (related : (m n : ProvNode)
      → In m nodes
      → In n nodes
      → nonempty (origin_key m) ≡ true
      → origin_key m ≡ origin_key n
      → R m.item_id n.item_id)
    (listed : (n : ProvNode) → In n nodes → In n.item_id known) where
  collapse_step-Stepped :
      (n : ProvNode) (seen : List ProvNode) (d : Dict Text ℕ) (p : Parents) (rep : ℕ → ℕ)
      → In n nodes
      → ((m : ProvNode) → In m seen → In m nodes)
      → Partition R known p rep
      → KeysSeen known seen d rep
      → Stepped R known (seen ++ n ∷ []) rep (collapse_step n (d, p))
  collapse_step-Stepped n seen d p rep mem sub inv ks =
      let key = origin_key n in
      elim (Bool-cases (nonempty (origin_key n))) [
        | inr f ↦ record {
          origin_of_key = d;
          after = p;
          rep' = rep;
          returned = collapse_step-eq n (d, p) ∙ collapse_at_skip key n.item_id d p f;
          partition = inv;
          coarser = λ x y h. h;
          keys_seen = KeysSeen-skip n f ks;
        }
        | inl t ↦
            let (p₁, found, inv₁) = find-Partition inv n.item_id (listed n mem) in
            let root_known = rep-In inv n.item_id (listed n mem) in
            let root_rep = rep-rep inv n.item_id (listed n mem) in
            let root = rep n.item_id in
            elim (Option-cases (get key d)) [
              | inl q ↦ record {
                origin_of_key = put key root d;
                after = p₁;
                rep' = rep;
                returned =
                    collapse_step-eq n (d, p)
                    ∙ collapse_at_first key n.item_id root d p p₁ t found q;
                partition = inv₁;
                coarser = λ x y h. h;
                keys_seen = KeysSeen-first n root q root_known root_rep ks;
              }
              | inr (v, q) ↦
                  let (v_known, (m, m_seen, m_key, m_rep)) = ks.of_node key v q in
                  let link : Linked R root v = chain (inv.sound root n.item_id root_rep) (
                    chain (base (related n m mem (sub m m_seen) t (sym m_key)))
                      (back (inv.sound v m.item_id m_rep))) in
                  let (p₂, joined, inv₂) = union-Partition inv₁ root v root_known v_known link in
                  let wider = merge-Coarser rep root v in
                  record {
                    origin_of_key = d;
                    after = p₂;
                    rep' = merge rep root v;
                    returned =
                        collapse_step-eq n (d, p)
                        ∙ collapse_at_again key n.item_id root v d p p₁ p₂ t found q joined;
                    partition = inv₂;
                    coarser = wider;
                    keys_seen =
                        KeysSeen-again n v q
                          (sym (merge_joins rep root v) ∙ wider root n.item_id root_rep)
                          (KeysSeen-Coarser wider ks);
                  }
            ]
      ]

  pub collapse_keys-Stepped :
      (ns seen : List ProvNode) (d : Dict Text ℕ) (p : Parents) (rep : ℕ → ℕ)
      → ((m : ProvNode) → In m ns → In m nodes)
      → ((m : ProvNode) → In m seen → In m nodes)
      → Partition R known p rep
      → KeysSeen known seen d rep
      → Stepped R known (seen ++ ns) rep (collapse_keys ns (d, p))
  unfolding collapse_keys
  collapse_keys-Stepped [] seen d p rep sub_ns sub inv ks = record {
    origin_of_key = d;
    after = p;
    rep' = rep;
    returned = refl;
    partition = inv;
    coarser = λ x y h. h;
    keys_seen = rw (append-nil seen) ks;
  }
  collapse_keys-Stepped (n ∷ ns) seen d p rep sub_ns sub inv ks =
      let mem = sub_ns n (here refl) in
      let step = collapse_step-Stepped n seen d p rep mem sub inv ks in
      let ih =
        collapse_keys-Stepped ns (seen ++ n ∷ []) step.origin_of_key step.after step.rep'
          (λ m k. sub_ns m (there k))
          (λ m k. elim (In-append seen _ k) [
            | inl a ↦ sub m a
            | inr b ↦ subst (λ x. In x nodes) (sym (In-one b)) mem
          ])
          step.partition step.keys_seen in
      record {
        origin_of_key = ih.origin_of_key;
        after = ih.after;
        rep' = ih.rep';
        returned = rw (step.returned, ◌>>=◌) ih.returned;
        partition = ih.partition;
        coarser = λ x y h. ih.coarser x y (step.coarser x y h);
        keys_seen =
            subst (λ l. KeysSeen known l ih.origin_of_key ih.rep') (append_assoc seen (n ∷ []) ns)
              ih.keys_seen;
      }
