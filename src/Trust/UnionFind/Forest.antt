-- ===== src/Trust/UnionFind/Forest.antt =====
-- The invariant of the parent dict, and that every operation keeps it.
use pi_news_aggregator.Prelude.{
  ℕ, zero, suc, ◌+◌, ◌≤◌, ◌<◌, ◌≡◌, ◌≢◌, refl, sym, ◌∙◌, ap, inl, inr, Option, none, some, [], ◌∷◌,
  ◌++◌, keys, get, put, get-put, get-put_self, keys-put, length, ◌==◌, nat_eq, if◌then◌else◌, ◌>>=◌,
  false, Bool-cases, ==_refl, ==_true, ==_false→ne, arith,
}
use pi_news_aggregator.Trust.UnionFind.{Parents, find_loop, find}

-- 1 if the two are equal
abbrev pub bit : ℕ → ℕ → ℕ
bit a b = if a == b then 1 else 0

-- How many entries point to themselves.
pub roots : Parents → ℕ
roots [] = 0
roots ((k, v) ∷ p) = bit k v + roots p

pub roots-put :
    (k v w : ℕ) (p : Parents) → get k p ≡ some w → roots (put k v p) + bit k w ≡ roots p + bit k v
unfolding roots get put
roots-put k v w [] h = cc
roots-put k v w ((j, u) ∷ p) h = elim (Bool-cases (k == j)) [
  | inl t ↦ ground arith
  | inr f ↦ rw f (omega (arith, roots-put k v w p (rw f at h)))
]

pub roots-append : (p : Parents) (k : ℕ) → roots (p ++ (k, k) ∷ []) ≡ suc (roots p)
unfolding roots
roots-append [] k = ground arith
roots-append ((j, u) ∷ p) k = omega (arith, roots-append p k)

pub length-put : (k v w : ℕ) (p : Parents) → get k p ≡ some w → length (put k v p) ≡ length p
unfolding get put
length-put k v w [] h = cc
length-put k v w ((j, u) ∷ p) h = elim (Bool-cases (k == j)) [
  | inl t ↦ rw t refl
  | inr f ↦ rw f (ap suc (length-put k v w p (rw f at h)))
]

-- `rep` names the root of each id (an id that is no key is its own), and `rank` grows along the
-- parents. The ranks leave room for one more union per root but one, so no path is longer than the
-- dict.
pub record Forest (p : Parents) (rep rank : ℕ → ℕ) : Type 0 where
  pub parent_key : (x y : ℕ) → get x p ≡ some y → (z : ℕ) × (get y p ≡ some z)
  pub parent_rep : (x y : ℕ) → get x p ≡ some y → rep y ≡ rep x
  pub root_rep : (x : ℕ) → get x p ≡ some x → rep x ≡ x
  pub rep_root : (x y : ℕ) → get x p ≡ some y → get (rep x) p ≡ some (rep x)
  pub other_rep : (x : ℕ) → get x p ≡ none → rep x ≡ x
  pub rank_up : (x y : ℕ) → get x p ≡ some y → x ≢ y → rank x < rank y
  pub rank_room : (x : ℕ) → rank x + roots p ≤ length p

-- No id yet: every id is its own class.
pub Forest-nil : Forest [] (λ x. x) (λ x. 0)
unfolding get roots
Forest-nil = record {
  parent_key = λ x y h. cc;
  parent_rep = λ x y h. cc;
  root_rep = λ x h. refl;
  rep_root = λ x y h. cc;
  other_rep = λ x h. refl;
  rank_up = λ x y h n. cc;
  rank_room = λ x. omega arith;
}

-- A write keeps every key a key.
pub put-key :
    (k v a b : ℕ) (p : Parents) → get a p ≡ some b → (c : ℕ) × (get a (put k v p) ≡ some c)
put-key k v a b p h = (if a == k then v else b, ground (arith, get-put k a v p))

-- Path halving at `x`.
module _ {p : Parents} {rep rank : ℕ → ℕ} (inv : Forest p rep rank) (x y z : ℕ)
    (hx : get x p ≡ some y) (hy : get y p ≡ some z) (moves : x ≢ y) where
  z-ne-x : z ≢ x
  z-ne-x q = elim (Bool-cases (y == z)) [
    | inl t ↦ ground (arith, inv.rank_up x y hx moves)
    | inr f ↦ ground (arith, inv.rank_up x y hx moves, inv.rank_up y z hy)
  ]

  -- What was a parent link before the write.
  old_link : (a b : ℕ) → get a (put x z p) ≡ some b → (c : ℕ) × (get a p ≡ some c)
  old_link a b h = (if a == x then y else b, ground (arith, get-put x a z p))

  target_key : (a b : ℕ) → get a (put x z p) ≡ some b → (c : ℕ) × (get b p ≡ some c)
  target_key a b h = elim (Bool-cases (a == x)) [
    | inl t ↦ let (c, q) = inv.parent_key y z hy in (c, ground (arith, get-put x a z p))
    | inr f ↦ inv.parent_key a b (ground (arith, get-put x a z p))
  ]

  pub halve-Forest : Forest (put x z p) rep rank
  halve-Forest = record {
    parent_key = λ a b h. let (c, q) = target_key a b h in put-key x z b c p q;
    parent_rep = λ a b h.
        ground (
          arith,
          get-put x a z p,
          inv.parent_rep a b,
          inv.parent_rep x y hx,
          inv.parent_rep y z hy,
        );
    root_rep = λ a h. ground (arith, get-put x a z p, z-ne-x, inv.root_rep a);
    rep_root = λ a b h.
        let (c, q) = old_link a b h in ground (arith, get-put x (rep a) z p, inv.rep_root a c q);
    other_rep = λ a h. ground (arith, get-put x a z p, inv.other_rep a);
    rank_up = λ a b h n.
        ground
          (arith, get-put x a z p, inv.rank_up a b, inv.rank_up x y hx moves, inv.rank_up y z hy);
    rank_room =
        λ a. ground (arith, roots-put x z y p hx, length-put x z y p hx, z-ne-x, inv.rank_room a);
  }

-- What `find` promises: the root of `x`, and a dict that stands for the same partition.
pub record Found (x : ℕ) (p : Parents) (rep rank : ℕ → ℕ) (r : Option (ℕ × Parents)) : Type 0 where
  pub after : Parents
  pub returned : r ≡ some (rep x, after)
  pub kept : Forest after rep rank
  pub same_keys : keys after ≡ keys p
  pub same_length : length after ≡ length p

find_loop_root :
    (fuel x : ℕ) (p : Parents) → get x p ≡ some x → find_loop (suc fuel) x p ≡ some (x, p)
unfolding find_loop
find_loop_root fuel x p hx = rw (hx, ◌>>=◌, ==_refl x) refl

find_loop_step :
    (fuel x y z : ℕ) (p : Parents)
    → get x p ≡ some y
    → get y p ≡ some z
    → (y == x) ≡ false
    → find_loop (suc fuel) x p ≡ find_loop fuel z (put x z p)
unfolding find_loop
find_loop_step fuel x y z p hx hy f =
    rw (hx, ◌>>=◌) (rw f (rw (hy, ◌>>=◌) (rw (get-put_self x z p, ◌>>=◌) refl)))

find_loop-Found :
    (fuel x : ℕ) (p : Parents) (rep rank : ℕ → ℕ)
    → Forest p rep rank
    → (y : ℕ) → get x p ≡ some y
    → length p < fuel + rank x
    → Found x p rep rank (find_loop fuel x p)
find_loop-Found zero x p rep rank inv y hx room = absurd (omega (arith, inv.rank_room x))
find_loop-Found (suc fuel) x p rep rank inv y hx room = elim (Bool-cases (y == x)) [
  | inl t ↦
      let q : get x p ≡ some x = cc (==_true y x t) in
      record {
        after = p;
        returned = cc (find_loop_root fuel x p q, inv.root_rep x q);
        kept = inv;
        same_keys = refl;
        same_length = refl;
      }
  | inr f ↦
      let (z, hy) = inv.parent_key x y hx in
      let moves : x ≢ y = λ q. ==_false→ne y x f (sym q) in
      let halved = put x z p in
      let inv' : Forest halved rep rank = halve-Forest inv x y z hx hy moves in
      let hx' : get x halved ≡ some z = get-put_self x z p in
      let (u, hz) = inv'.parent_key x z hx' in
      let up : rank x < rank z = inv'.rank_up x z hx' (λ q. z-ne-x inv x y z hx hy moves (sym q)) in
      let len = length-put x z y p hx in
      let ih = find_loop-Found fuel z halved rep rank inv' u hz (omega arith) in
      record {
        after = ih.after;
        returned =
            find_loop_step fuel x y z p hx hy f
            ∙ ih.returned
            ∙ ap (λ r. some (r, ih.after)) (inv'.parent_rep x z hx');
        kept = ih.kept;
        same_keys = ih.same_keys ∙ keys-put x z y p hx;
        same_length = ih.same_length ∙ len;
      }
]

-- `find` of an id that is there, in a well-formed dict, ends without a KeyError and returns the root
-- of its class. The dict stays well-formed with the same classes and ids.
pub find-Found :
    (x y : ℕ) (p : Parents) (rep rank : ℕ → ℕ)
    → Forest p rep rank
    → get x p ≡ some y
    → Found x p rep rank (find x p)
unfolding find
find-Found x y p rep rank inv hx =
    find_loop-Found (suc (length p)) x p rep rank inv y hx (omega arith)
