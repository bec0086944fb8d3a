-- ===== src/Enrich/Flush/Frequent.antt =====
-- services/enrich/main.py, flush_tallies: which counts are kept when there are too many.
use pi_news_aggregator.Prelude.{
  ℕ, zero, suc, ◌≤◌, ◌<◌, ◌≡◌, refl, sym, ap, ◌∙◌, subst, true, false, leb, ltb, ltb_false→le,
  ltb→lt, Bool-cases, inl, inr, [], ◌∷◌, ◌++◌, Text, Dict, All, In, In-split, here, there,
  In-append_right, length, length-take, take, drop, take-append_drop, arith,
}
use package.pi_news_aggregator.Enrich.Flush.{insert_common, sort_common, top_counts}
use pi_news_aggregator.Schema.{max_tally_entities}

-- Counts that fall, or stay the same, from the first to the last.
abbrev pub Falling : Dict Text ℕ → Type 0
Falling [] = Unit
Falling (c ∷ d) = All (λ (e : Text × ℕ). e.1 ≤ c.1) d × Falling d

-- The counts that are kept are all counts, or 4096 of more, and none that is left out is higher than
-- one that is kept.
pub data MostFrequent (counts : Dict Text ℕ) : Dict Text ℕ → Type 0 where
  all_kept : length counts ≤ 4096 → MostFrequent counts counts
  some_kept :
      {kept : Dict Text ℕ} (left : Dict Text ℕ)
      → 4096 < length counts
      → length kept ≡ 4096
      → length (kept ++ left) ≡ length counts
      → ((c : Text × ℕ) → In c counts → In c (kept ++ left))
      → ((c : Text × ℕ) → In c (kept ++ left) → In c counts)
      → ((c e : Text × ℕ) → In c kept → In e left → e.1 ≤ c.1)
      → MostFrequent counts kept

All-below :
    (m n : ℕ) (d : Dict Text ℕ)
    → m ≤ n
    → All (λ (e : Text × ℕ). e.1 ≤ m) d
    → All (λ (e : Text × ℕ). e.1 ≤ n) d
All-below m n [] h k = tt
All-below m n (c ∷ d) h k = (omega (arith, h, k.0), All-below m n d h k.1)

All→In : (P : Text × ℕ → Type 0) (d : Dict Text ℕ) (c : Text × ℕ) → All P d → In c d → P c
All→In P [] c h m = elim m [ ]
All→In P (x ∷ d) c h (here q) = subst P (sym q) h.0
All→In P (x ∷ d) c h (there m) = All→In P d c h.1 m

pub All-insert :
    (P : Text × ℕ → Type 0) (k : Text) (n : ℕ) (d : Dict Text ℕ)
    → P (k, n)
    → All P d
    → All P (insert_common k n d)
unfolding insert_common
All-insert P k n [] f h = (f, tt)
All-insert P k n ((j, m) ∷ d) f h = elim (Bool-cases (leb m n)) [
  | inl t ↦ rw t (f, h)
  | inr g ↦ rw g (h.0, All-insert P k n d f h.1)
]

insert_common-Falling :
    (k : Text) (n : ℕ) (d : Dict Text ℕ) → Falling d → Falling (insert_common k n d)
unfolding insert_common
insert_common-Falling k n [] f = (tt, tt)
insert_common-Falling k n ((j, m) ∷ d) f = elim (Bool-cases (leb m n)) [
  | inl t ↦ rw t ((at_most m n t, All-below m n d (at_most m n t) f.0), f)
  | inr g ↦ rw g (
    All-insert (λ (e : Text × ℕ). e.1 ≤ m) k n d (over m n g) f.0,
    insert_common-Falling k n d f.1,
  )
]
  where
    at_most : (x y : ℕ) → leb x y ≡ true → x ≤ y
    at_most x y h = ground (arith, h)

    over : (x y : ℕ) → leb x y ≡ false → y ≤ x
    over x y h = ground (arith, h)

sort_common-Falling : (d : Dict Text ℕ) → Falling (sort_common d)
unfolding sort_common
sort_common-Falling [] = tt
sort_common-Falling ((k, n) ∷ d) = insert_common-Falling k n (sort_common d) (sort_common-Falling d)

-- The entries of a list with one more are those of the list and the one.
In-insert_common :
    (k : Text) (n : ℕ) (d : Dict Text ℕ) (c : Text × ℕ)
    → In c ((k, n) ∷ d)
    → In c (insert_common k n d)
unfolding insert_common
In-insert_common k n [] c h = h
In-insert_common k n ((j, m) ∷ d) c h = elim (Bool-cases (leb m n)) [
  | inl t ↦ rw t h
  | inr g ↦ rw g (elim (In-split h) [
    | inl q ↦ there (In-insert_common k n d c (here q))
    | inr r ↦ elim (In-split r) [
      | inl q ↦ here q
      | inr x ↦ there (In-insert_common k n d c (there x))
    ]
  ])
]

insert_common-In :
    (k : Text) (n : ℕ) (d : Dict Text ℕ) (c : Text × ℕ)
    → In c (insert_common k n d)
    → In c ((k, n) ∷ d)
unfolding insert_common
insert_common-In k n [] c h = h
insert_common-In k n ((j, m) ∷ d) c h = elim (Bool-cases (leb m n)) [
  | inl t ↦ rw t at h
  | inr g ↦ elim (In-split (rw g at h)) [
    | inl q ↦ there (here q)
    | inr x ↦ elim (In-split (insert_common-In k n d c x)) [
      | inl q ↦ here q
      | inr y ↦ there (there y)
    ]
  ]
]

length-insert_common :
    (k : Text) (n : ℕ) (d : Dict Text ℕ) → length (insert_common k n d) ≡ suc (length d)
unfolding insert_common
length-insert_common k n [] = refl
length-insert_common k n ((j, m) ∷ d) = elim (Bool-cases (leb m n)) [
  | inl t ↦ rw t refl
  | inr g ↦ rw g (ap suc (length-insert_common k n d))
]

In-sort_common : (d : Dict Text ℕ) (c : Text × ℕ) → In c d → In c (sort_common d)
unfolding sort_common
In-sort_common [] c m = m
In-sort_common ((k, n) ∷ d) c (here q) = In-insert_common k n (sort_common d) c (here q)
In-sort_common ((k, n) ∷ d) c (there m) =
    In-insert_common k n (sort_common d) c (there (In-sort_common d c m))

sort_common-In : (d : Dict Text ℕ) (c : Text × ℕ) → In c (sort_common d) → In c d
unfolding sort_common
sort_common-In [] c m = m
sort_common-In ((k, n) ∷ d) c m = elim (In-split (insert_common-In k n (sort_common d) c m)) [
  | inl q ↦ here q
  | inr x ↦ there (sort_common-In d c x)
]

length-sort_common : (d : Dict Text ℕ) → length (sort_common d) ≡ length d
unfolding sort_common
length-sort_common [] = refl
length-sort_common ((k, n) ∷ d) =
    length-insert_common k n (sort_common d) ∙ ap suc (length-sort_common d)

-- In falling counts, what comes after the first `n` is no higher than one of them.
Falling-cut :
    (n : ℕ) (d : Dict Text ℕ) (c e : Text × ℕ)
    → Falling d
    → In c (take n d)
    → In e (drop n d)
    → e.1 ≤ c.1
Falling-cut zero d c e f m k = elim m [ ]
Falling-cut (suc n) [] c e f m k = elim m [ ]
Falling-cut (suc n) (x ∷ d) c e f (here q) k =
    subst (λ (z : Text × ℕ). e.1 ≤ z.1) (sym q)
      (All→In (λ (z : Text × ℕ). z.1 ≤ x.1) d e f.0
        (subst (In e) (sym (take-append_drop n d)) (In-append_right (take n d) (drop n d) k)))
Falling-cut (suc n) (x ∷ d) c e f (there m) k = Falling-cut n d c e f.1 m k

pub top_counts-MostFrequent : (d : Dict Text ℕ) → MostFrequent d (top_counts d)
unfolding top_counts
top_counts-MostFrequent d = elim (Bool-cases (ltb max_tally_entities (length d))) [
  | inr f ↦ rw f (all_kept (ltb_false→le max_tally_entities (length d) f))
  | inl t ↦
      let sorted = sort_common d in
      let cut = take-append_drop max_tally_entities sorted in
      let many = ltb→lt max_tally_entities (length d) t in
      rw t (
        some_kept (drop max_tally_entities sorted) many
          (omega (arith, length-take max_tally_entities sorted, length-sort_common d, many))
          (ap length (sym cut) ∙ length-sort_common d)
          (λ c m. subst (In c) cut (In-sort_common d c m))
          (λ c m. sort_common-In d c (subst (In c) (sym cut) m))
          (λ c e m k. Falling-cut max_tally_entities sorted c e (sort_common-Falling d) m k))
]
