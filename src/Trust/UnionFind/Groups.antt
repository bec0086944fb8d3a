-- ===== src/Trust/UnionFind/Groups.antt =====
-- `_UnionFind.components` returns one group for each class, and each id in the group of its class.
use pi_news_aggregator.Prelude.{
  In, here, there, In-append, In-append_left, In-append_right, In-one, keys-put, keys-put_new,
  get-none→not_In, get-put, get-put_self, get-put_ne, subst, ℕ, ◌≡◌, refl, sym, ◌∙◌, ap, inl, inr,
  Option, none, some, List, [], ◌∷◌, ◌++◌, Dict, keys, get, put, nat_eq, Distinct, Distinct-snoc,
  Option-cases, arith, ◌>>=◌, append-nil, append_assoc, eq_or_ne,
}
use pi_news_aggregator.Trust.UnionFind.{Parents, join_group, components_loop, components}
use pi_news_aggregator.Trust.UnionFind.Partition.{Partition, find-Partition}

-- `out` groups the ids seen so far by their root.
pub record Grouped (rep : ℕ → ℕ) (seen : List ℕ) (out : Dict ℕ (List ℕ)) : Type 0 where
  pub of_root : (r x : ℕ) (g : List ℕ) → get r out ≡ some g → In x g → (rep x ≡ r) × In x seen
  pub placed : (x : ℕ) → In x seen → (g : List ℕ) × (get (rep x) out ≡ some g) × In x g
  pub inhabited : (r : ℕ) (g : List ℕ) → get r out ≡ some g → (x : ℕ) × In x g
  pub distinct : Distinct (keys out)

Grouped-nil : (rep : ℕ → ℕ) → Grouped rep [] []
unfolding get
Grouped-nil rep = record {
  of_root = λ r x g h m. cc;
  placed = λ x m. elim m [ ];
  inhabited = λ r g h. cc;
  distinct = tt;
}

-- The group that `x` joins: the old one of its root, or an empty one.
old_group : ℕ → Dict ℕ (List ℕ) → List ℕ
old_group r out = elim (get r out) [ none ↦ [] | some g ↦ g ]

join_group-eq :
    (r x : ℕ) (out : Dict ℕ (List ℕ)) → join_group r x out ≡ put r (old_group r out ++ x ∷ []) out
unfolding join_group old_group
join_group-eq r x out = elim (Option-cases (get r out)) [
  | inl q ↦ rw (q, join_group, old_group) refl
  | inr (g, q) ↦ rw (q, join_group, old_group) refl
]

In-old_group :
    (r x : ℕ) (out : Dict ℕ (List ℕ))
    → In x (old_group r out)
    → (g : List ℕ) × (get r out ≡ some g) × In x g
unfolding old_group
In-old_group r x out m = elim (Option-cases (get r out)) [
  | inl q ↦ elim (subst (λ o. In x (elim o [ none ↦ [] | some g ↦ g ])) q m) [ ]
  | inr (g, q) ↦ (g, q, subst (λ o. In x (elim o [ none ↦ [] | some k ↦ k ])) q m)
]

old_group-some :
    (r : ℕ) (g : List ℕ) (out : Dict ℕ (List ℕ)) → get r out ≡ some g → old_group r out ≡ g
unfolding old_group
old_group-some r g out q = rw (q, old_group) refl

module _ (rep : ℕ → ℕ) (seen : List ℕ) (x : ℕ) (out : Dict ℕ (List ℕ))
    (inv : Grouped rep seen out) where
  abbrev joined : List ℕ
  joined = old_group (rep x) out ++ x ∷ []

  abbrev after : Dict ℕ (List ℕ)
  after = put (rep x) joined out

  at_root : get (rep x) after ≡ some joined
  at_root = get-put_self (rep x) joined out

  after-of_root :
      (r y : ℕ) (g : List ℕ) → get r after ≡ some g → In y g → (rep y ≡ r) × In y (seen ++ x ∷ [])
  after-of_root r y g h m = elim (eq_or_ne r (rep x)) [
    | inl q ↦
        let eq : g ≡ joined = ground (arith, get-put (rep x) r joined out) in
        elim (In-append (old_group (rep x) out) (x ∷ []) (subst (In y) eq m)) [
          | inl k ↦
              let (g₁, h₁, m₁) = In-old_group (rep x) y out k in
              let (e, n) = inv.of_root (rep x) y g₁ h₁ m₁ in
              (e ∙ sym q, In-append_left seen (x ∷ []) n)
          | inr k ↦ (ap rep (In-one k) ∙ sym q, In-append_right seen (x ∷ []) k)
        ]
    | inr n ↦
        let (e, k) = inv.of_root r y g (sym (get-put_ne (rep x) r joined out n) ∙ h) m in
        (e, In-append_left seen (x ∷ []) k)
  ]

  after-placed :
      (y : ℕ) → In y (seen ++ x ∷ []) → (g : List ℕ) × (get (rep y) after ≡ some g) × In y g
  after-placed y m = elim (In-append seen (x ∷ []) m) [
    | inl k ↦
        let (g, h, n) = inv.placed y k in
        elim (eq_or_ne (rep y) (rep x)) [
          | inl q ↦ (
            joined,
            subst (λ r. get r after ≡ some joined) (sym q) at_root,
            In-append_left (old_group (rep x) out) (x ∷ []) (
                subst (In y)
                  (sym (old_group-some (rep x) g out (subst (λ r. get r out ≡ some g) q h))) n),
          )
          | inr d ↦ (g, get-put_ne (rep x) (rep y) joined out d ∙ h, n)
        ]
    | inr k ↦ (
      joined,
      subst (λ z. get (rep z) after ≡ some joined) (sym (In-one k)) at_root,
      In-append_right (old_group (rep x) out) (x ∷ []) k,
    )
  ]

  after-inhabited : (r : ℕ) (g : List ℕ) → get r after ≡ some g → (y : ℕ) × In y g
  after-inhabited r g h = elim (eq_or_ne r (rep x)) [
    | inl q ↦
        let eq : g ≡ joined = ground (arith, get-put (rep x) r joined out) in
        (x, subst (In x) (sym eq) (In-append_right (old_group (rep x) out) (x ∷ []) (here refl)))
    | inr n ↦ inv.inhabited r g (sym (get-put_ne (rep x) r joined out n) ∙ h)
  ]

  join_group-Grouped : Grouped rep (seen ++ x ∷ []) (join_group (rep x) x out)
  join_group-Grouped = rw (join_group-eq (rep x) x out) (record {
    of_root = after-of_root;
    placed = after-placed;
    inhabited = after-inhabited;
    distinct = elim (Option-cases (get (rep x) out)) [
      | inl q ↦
          subst Distinct (sym (keys-put_new (rep x) joined out q))
            (Distinct-snoc (keys out) (rep x) inv.distinct (get-none→not_In (rep x) out q))
      | inr (g, q) ↦ subst Distinct (sym (keys-put (rep x) joined g out q)) inv.distinct
    ];
  })

-- The result of the loop of `components`.
record Ended (rep : ℕ → ℕ) (seen : List ℕ) (r : Option (Dict ℕ (List ℕ))) : Type 0 where
  groups : Dict ℕ (List ℕ)
  returned : r ≡ some groups
  grouped : Grouped rep seen groups

components_loop-Ended :
    {R : ℕ → ℕ → Type 0} (ids : List ℕ) (rep : ℕ → ℕ) (xs seen : List ℕ) (p : Parents)
    (out : Dict ℕ (List ℕ))
    → Partition R ids p rep
    → ((x : ℕ) → In x xs → In x ids)
    → Grouped rep seen out
    → Ended rep (seen ++ xs) (components_loop xs p out)
unfolding components_loop
components_loop-Ended ids rep [] seen p out inv sub grouped = record {
  groups = out;
  returned = refl;
  grouped = rw (append-nil seen) grouped;
}
components_loop-Ended ids rep (x ∷ xs) seen p out inv sub grouped =
    let (p', run, inv') = find-Partition inv x (sub x (here refl)) in
    let ih =
      components_loop-Ended ids rep xs (seen ++ x ∷ []) p' (join_group (rep x) x out) inv'
        (λ y m. sub y (there m)) (join_group-Grouped rep seen x out grouped) in
    record {
      groups = ih.groups;
      returned = rw (run, ◌>>=◌) ih.returned;
      grouped = subst (λ l. Grouped rep l ih.groups) (append_assoc seen (x ∷ []) xs) ih.grouped;
    }

pub components-Grouped :
    {R : ℕ → ℕ → Type 0} (ids : List ℕ) (rep : ℕ → ℕ) (p : Parents)
    → Partition R ids p rep
    → (out : Dict ℕ (List ℕ)) × (components p ≡ some out) × Grouped rep ids out
unfolding components
components-Grouped ids rep p inv =
    let ended =
      components_loop-Ended ids rep (keys p) [] p [] inv (λ x m. subst (In x) inv.same_keys m)
        (Grouped-nil rep) in
    (
      ended.groups,
      ended.returned,
      subst (λ l. Grouped rep l ended.groups) inv.same_keys ended.grouped,
    )
