-- ===== src/Trust/UnionFind/Partition.antt =====
-- The parent dict as a partition of its ids, seen from a relation whose pairs are being joined.
use pi_news_aggregator.Prelude.{
  In, In-keys→get, get→In-keys, subst, ℕ, ◌≡◌, sym, ◌∙◌, ap, inl, inr, some, List, keys, get, ◌==◌,
  nat_eq, Bool-cases, ==_true, arith,
}
use pi_news_aggregator.Trust.UnionFind.{Parents, find, union}
use pi_news_aggregator.Trust.UnionFind.Forest.{Forest, find-Found}
use pi_news_aggregator.Trust.UnionFind.Merge.{merge, union-Merged}

-- The least equivalence relation above `R`.
pub data Linked (R : ℕ → ℕ → Type 0) : ℕ → ℕ → Type 0 where
  base : {x y : ℕ} → R x y → Linked R x y
  same : {x y : ℕ} → x ≡ y → Linked R x y
  back : {x y : ℕ} → Linked R x y → Linked R y x
  chain : {x y z : ℕ} → Linked R x y → Linked R y z → Linked R x z

-- A relation that a function's equal values include is included with its closure.
pub Linked-elim :
    {R : ℕ → ℕ → Type 0} (f : ℕ → ℕ)
    → ((x y : ℕ) → R x y → f x ≡ f y)
    → (x y : ℕ) → Linked R x y
    → f x ≡ f y
Linked-elim f h x y (base r) = h x y r
Linked-elim f h x y (same q) = ap f q
Linked-elim f h x y (back l) = sym (Linked-elim f h y x l)
Linked-elim f h x z (chain {y = y} l k) = Linked-elim f h x y l ∙ Linked-elim f h y z k

-- `ids` are partitioned by `rep`, and only ids that `R` links share a class.
pub record Partition (R : ℕ → ℕ → Type 0) (ids : List ℕ) (p : Parents) (rep : ℕ → ℕ) : Type 0 where
  pub rank : ℕ → ℕ
  pub forest : Forest p rep rank
  pub same_keys : keys p ≡ ids
  pub sound : (x y : ℕ) → rep x ≡ rep y → Linked R x y

-- What shares a class before shares one after.
abbrev pub Coarser : (ℕ → ℕ) → (ℕ → ℕ) → Type 0
Coarser rep rep' = (x y : ℕ) → rep x ≡ rep y → rep' x ≡ rep' y

module _ {R : ℕ → ℕ → Type 0} {ids : List ℕ} {p : Parents} {rep : ℕ → ℕ}
    (inv : Partition R ids p rep) where
  pub link_of_id : (a : ℕ) → In a ids → (y : ℕ) × (get a p ≡ some y)
  link_of_id a m = In-keys→get a p (subst (In a) (sym inv.same_keys) m)

  pub rep-In : (a : ℕ) → In a ids → In (rep a) ids
  rep-In a m =
      let (y, h) = link_of_id a m in
      subst (In (rep a)) inv.same_keys (get→In-keys (rep a) (rep a) p (inv.forest.rep_root a y h))

  pub rep-rep : (a : ℕ) → In a ids → rep (rep a) ≡ rep a
  rep-rep a m =
      let (y, h) = link_of_id a m in inv.forest.root_rep (rep a) (inv.forest.rep_root a y h)

  pub find-Partition :
      (a : ℕ) → In a ids → (p' : Parents) × (find a p ≡ some (rep a, p')) × Partition R ids p' rep
  find-Partition a m =
      let (y, h) = link_of_id a m in
      let found = find-Found a y p rep inv.rank inv.forest h in
      (
        found.after,
        found.returned,
        record {
          rank = inv.rank;
          forest = found.kept;
          same_keys = found.same_keys ∙ inv.same_keys;
          sound = inv.sound;
        },
      )

  merge_sound :
      (a b : ℕ) → Linked R a b → (x y : ℕ) → merge rep a b x ≡ merge rep a b y → Linked R x y
  merge_sound a b l x y h = elim (Bool-cases (rep x == rep a)) [
    | inl t ↦ elim (Bool-cases (rep y == rep a)) [
      | inl u ↦ inv.sound x y (==_true (rep x) (rep a) t ∙ sym (==_true (rep y) (rep a) u))
      | inr u ↦
          chain (inv.sound x a (==_true (rep x) (rep a) t)) (chain l (inv.sound b y (ground arith)))
    ]
    | inr f ↦ elim (Bool-cases (rep y == rep a)) [
      | inl u ↦
          chain (inv.sound x b (ground arith))
            (chain (back l) (inv.sound a y (sym (==_true (rep y) (rep a) u))))
      | inr u ↦ inv.sound x y (ground arith)
    ]
  ]

  pub union-Partition :
      (a b : ℕ)
      → In a ids
      → In b ids
      → Linked R a b
      → (p' : Parents) × (union a b p ≡ some p') × Partition R ids p' (merge rep a b)
  union-Partition a b ma mb l =
      let (y, ha) = link_of_id a ma in
      let (z, hb) = link_of_id b mb in
      let merged = union-Merged a b y z p rep inv.rank inv.forest ha hb in
      (
        merged.after,
        merged.returned,
        record {
          rank = merged.rank;
          forest = merged.kept;
          same_keys = merged.same_keys ∙ inv.same_keys;
          sound = merge_sound a b l;
        },
      )

pub merge-Coarser : (rep : ℕ → ℕ) (a b : ℕ) → Coarser rep (merge rep a b)
merge-Coarser rep a b x y h = ground arith

pub merge_joins : (rep : ℕ → ℕ) (a b : ℕ) → merge rep a b a ≡ merge rep a b b
merge_joins rep a b = ground arith
