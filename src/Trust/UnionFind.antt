-- ===== src/Trust/UnionFind.antt =====
-- `_UnionFind` of libs/trust/graph.py: a dict of parents, with path halving in `find`. Ids are
-- numbers. `none` is a KeyError, or fuel that has run out: neither happens (UnionFind/Forest).
pub mod Forest
pub mod Merge
pub mod Partition
pub mod Groups
use pi_news_aggregator.Prelude.{
  ℕ, zero, suc, Option, none, some, List, [], ◌∷◌, ◌++◌, Dict, keys, get, put, set_default, length,
  ◌==◌, nat_eq, if◌then◌else◌, ◌>>=◌, Bool, true, false,
}

-- self._parent
abbrev pub Parents : Type 0
Parents = Dict ℕ ℕ

unfoldable pub add : ℕ → Parents → Parents
unfolding set_default
add x p = set_default x x p

-- The `while` loop: `x`'s parent becomes its grandparent, and `x` moves there.
find_loop : ℕ → ℕ → Parents → Option (ℕ × Parents)
find_loop zero x p = none
find_loop (suc fuel) x p = do
  parent ← get x p
  elim (parent == x) [
    | true ↦ some (x, p)
    | false ↦ do
      grandparent ← get parent p
      let halved = put x grandparent p
      next ← get x halved
      find_loop fuel next halved
  ]

-- The fuel is one more than the entries: a path to a root visits no entry twice.
unfoldable pub find : ℕ → Parents → Option (ℕ × Parents)
unfolding find_loop get put
find x p = find_loop (suc (length p)) x p

unfoldable pub union : ℕ → ℕ → Parents → Option Parents
unfolding find
union a b p = do
  (root_a, p₁) ← find a p
  (root_b, p₂) ← find b p₁
  some (if root_a == root_b then p₂ else put root_a root_b p₂)

-- out.setdefault(root, set()).add(x)
unfoldable pub join_group : ℕ → ℕ → Dict ℕ (List ℕ) → Dict ℕ (List ℕ)
unfolding get put
join_group root x out = elim (get root out) [
  | none ↦ put root (x ∷ []) out
  | some group ↦ put root (group ++ x ∷ []) out
]

components_loop : List ℕ → Parents → Dict ℕ (List ℕ) → Option (Dict ℕ (List ℕ))
unfolding find join_group
components_loop [] p out = some out
components_loop (x ∷ xs) p out = do
  (root, p') ← find x p
  components_loop xs p' (join_group root x out)

unfoldable pub components : Parents → Option (Dict ℕ (List ℕ))
unfolding components_loop
components p = components_loop (keys p) p []
