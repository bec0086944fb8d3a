-- ===== src/Trust/UnionFind/Merge.antt =====
-- `_UnionFind.add` and `_UnionFind.union` against the partition that the dict stands for.
use pi_news_aggregator.Prelude.{
  In, In-keys→get, get→In-keys, subst, fun_ext, ℕ, suc, max, ◌≡◌, ◌≢◌, refl, sym, ◌∙◌, inl, inr,
  Option, none, some, [], ◌∷◌, ◌++◌, keys, get, put, get-put, get-append, keys-put, length-append,
  ◌==◌, nat_eq, if◌then◌else◌, ◌>>=◌, Bool-cases, Option-cases, ==_true, ==_false→ne, arith,
}
use pi_news_aggregator.Trust.UnionFind.{Parents, find, union}
use pi_news_aggregator.Trust.UnionFind.Forest.{
  Forest, find-Found, roots-append, roots-put, length-put, put-key,
}

-- The partition after the classes of `a` and `b` are one: its root is that of `b`.
abbrev pub merge : (ℕ → ℕ) → ℕ → ℕ → ℕ → ℕ
merge rep a b x = if rep x == rep a then rep b else rep x

-- The root `a` becomes a child of the root `b`.
module _ {p : Parents} {rep rank : ℕ → ℕ} (inv : Forest p rep rank) (a b : ℕ)
    (ha : get a p ≡ some a) (hb : get b p ≡ some b) (apart : a ≢ b) where
  lifted : ℕ → ℕ
  lifted x = if x == b then max (rank b) (suc (rank a)) else rank x

  old_link : (x y : ℕ) → get x (put a b p) ≡ some y → (c : ℕ) × (get x p ≡ some c)
  old_link x y h = (if x == a then a else y, ground (arith, get-put a x b p))

  target_key : (x y : ℕ) → get x (put a b p) ≡ some y → (c : ℕ) × (get y p ≡ some c)
  target_key x y h = elim (Bool-cases (x == a)) [
    | inl t ↦ (b, ground (arith, get-put a x b p))
    | inr f ↦ inv.parent_key x y (ground (arith, get-put a x b p))
  ]

  abbrev joined : ℕ → ℕ
  joined x = if rep x == a then b else rep x

  link-Forest : Forest (put a b p) joined lifted
  unfolding lifted
  link-Forest = record {
    parent_key = λ x y h. let (c, q) = target_key x y h in put-key a b y c p q;
    parent_rep = λ x y h.
        ground (arith, get-put a x b p, inv.parent_rep x y, inv.root_rep a ha, inv.root_rep b hb);
    root_rep = λ x h. ground (arith, get-put a x b p, inv.root_rep x);
    rep_root = λ x y h.
        let (c, q) = old_link x y h in
        ground (arith, get-put a (rep x) b p, get-put a b b p, inv.rep_root x c q);
    other_rep = λ x h. ground (arith, get-put a x b p, inv.other_rep x);
    rank_up = λ x y h n. ground (arith, get-put a x b p, inv.rank_up x y);
    rank_room = λ x. ground (
      arith,
      roots-put a b a p ha,
      length-put a b a p ha,
      inv.rank_room x,
      inv.rank_room a,
      inv.rank_room b,
    );
  }

pub key_of_same :
    (x y : ℕ) (p q : Parents) → keys q ≡ keys p → get x p ≡ some y → (c : ℕ) × (get x q ≡ some c)
key_of_same x y p q same h = In-keys→get x q (subst (In x) (sym same) (get→In-keys x y p h))

-- What `union` promises: the classes of its arguments become one, and no other class changes.
pub record Merged (a b : ℕ) (p : Parents) (rep : ℕ → ℕ) (r : Option Parents) : Type 0 where
  pub after : Parents
  pub rank : ℕ → ℕ
  pub returned : r ≡ some after
  pub kept : Forest after (merge rep a b) rank
  pub same_keys : keys after ≡ keys p

union_run :
    (a b ra rb : ℕ) (p p₁ p₂ : Parents)
    → find a p ≡ some (ra, p₁)
    → find b p₁ ≡ some (rb, p₂)
    → union a b p ≡ some (if ra == rb then p₂ else put ra rb p₂)
unfolding union
union_run a b ra rb p p₁ p₂ ha hb = rw (ha, ◌>>=◌) (rw (hb, ◌>>=◌) refl)

merge_same : (rep : ℕ → ℕ) (a b : ℕ) → rep a ≡ rep b → merge rep a b ≡ rep
merge_same rep a b h = fun_ext λ x. ground arith

-- `union` of two ids that are there ends without a KeyError, and keeps a well-formed dict of the same
-- ids, in which the classes of the two are one and all other classes are as before.
pub union-Merged :
    (a b y z : ℕ) (p : Parents) (rep rank : ℕ → ℕ)
    → Forest p rep rank
    → get a p ≡ some y
    → get b p ≡ some z
    → Merged a b p rep (union a b p)
union-Merged a b y z p rep rank inv ha hb =
    let first = find-Found a y p rep rank inv ha in
    let p₁ = first.after in
    let (v, hb₁) = key_of_same b z p p₁ first.same_keys hb in
    let second = find-Found b v p₁ rep rank first.kept hb₁ in
    let p₂ = second.after in
    let same = second.same_keys ∙ first.same_keys in
    let run = union_run a b (rep a) (rep b) p p₁ p₂ first.returned second.returned in
    let inv₂ = second.kept in
    let (c, ha₂) = key_of_same a y p p₂ same ha in
    let (d, hb₂) = key_of_same b z p p₂ same hb in
    elim (Bool-cases (rep a == rep b)) [
      | inl t ↦ record {
        after = p₂;
        rank = rank;
        returned = rw t at run;
        kept =
            subst (λ r. Forest p₂ r rank) (sym (merge_same rep a b (==_true (rep a) (rep b) t)))
              inv₂;
        same_keys = same;
      }
      | inr f ↦
          let root_a = inv₂.rep_root a c ha₂ in
          let root_b = inv₂.rep_root b d hb₂ in
          record {
            after = put (rep a) (rep b) p₂;
            rank = lifted inv₂ (rep a) (rep b) root_a root_b (==_false→ne (rep a) (rep b) f);
            returned = rw f at run;
            kept = link-Forest inv₂ (rep a) (rep b) root_a root_b (==_false→ne (rep a) (rep b) f);
            same_keys = keys-put (rep a) (rep b) (rep a) p₂ root_a ∙ same;
          }
    ]

-- `add` of a fresh id, which is its own class, or of one that is there, which changes nothing.
pub add-Forest :
    (x : ℕ) (p : Parents) (rep rank : ℕ → ℕ)
    → Forest p rep rank
    → get x p ≡ none
    → Forest (p ++ (x, x) ∷ []) rep rank
add-Forest x p rep rank inv fresh = record {
  parent_key = λ a b h. elim (Option-cases (get a p)) [
    | inl q ↦ (x, ground (arith, get-append x a x p, get-append x b x p))
    | inr (c, q) ↦
        let (z, k) = inv.parent_key a c q in
        (z, ground (arith, get-append x a x p, get-append x b x p))
  ];
  parent_rep = λ a b h. ground (arith, get-append x a x p, inv.parent_rep a b);
  root_rep = λ a h. ground (arith, get-append x a x p, inv.root_rep a, inv.other_rep x fresh);
  rep_root = λ a b h. elim (Option-cases (get a p)) [
    | inl q ↦ ground (arith, get-append x a x p, get-append x (rep a) x p, inv.other_rep x fresh)
    | inr (c, q) ↦ ground (arith, get-append x (rep a) x p, inv.rep_root a c q)
  ];
  other_rep = λ a h. ground (arith, get-append x a x p, inv.other_rep a);
  rank_up = λ a b h n. ground (arith, get-append x a x p, inv.rank_up a b);
  rank_room = λ a. omega (arith, roots-append p x, length-append p ((x, x) ∷ []), inv.rank_room a);
}
