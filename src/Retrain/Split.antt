-- ===== src/Retrain/Split.antt =====
-- services/retrain/evalx.py, time_split: what is trained on is older than what is evaluated on.
use pi_news_aggregator.Prelude.{
  sym, take-append_drop, ℕ, zero, suc, ◌+◌, ◌-◌, min, max, ◌≤◌, ◌≡◌, refl, ap, ◌∙◌, inl, inr, leb,
  List, [], ◌∷◌, ◌++◌, length, length-take, length-drop, take, drop, In, here, there, In-split, All,
  Bool-cases, arith,
}
use package.pi_news_aggregator.Retrain.{LabeledRow, insert_row, sort_rows, eval_size, time_split}

-- In the order of their times.
abbrev pub Ordered : List LabeledRow → Type 0
Ordered [] = Unit
Ordered (r ∷ rows) = All (λ s. r.ts_observed ≤ s.ts_observed) rows × Ordered rows

All-insert :
    (t : ℕ) (r : LabeledRow) (rows : List LabeledRow)
    → t ≤ r.ts_observed
    → All (λ s. t ≤ s.ts_observed) rows
    → All (λ s. t ≤ s.ts_observed) (insert_row r rows)
unfolding insert_row
All-insert t r [] h k = (h, tt)
All-insert t r (s ∷ rows) h (p, k) = elim (Bool-cases (leb r.ts_observed s.ts_observed)) [
  | inl b ↦ rw b (h, (p, k))
  | inr b ↦ rw b (p, All-insert t r rows h k)
]

All-later :
    (t u : ℕ) (rows : List LabeledRow)
    → t ≤ u
    → All (λ s. u ≤ s.ts_observed) rows
    → All (λ s. t ≤ s.ts_observed) rows
All-later t u [] h k = tt
All-later t u (s ∷ rows) h (p, k) = (omega (arith, h, p), All-later t u rows h k)

insert_row-Ordered :
    (r : LabeledRow) (rows : List LabeledRow) → Ordered rows → Ordered (insert_row r rows)
unfolding insert_row
insert_row-Ordered r [] h = (tt, tt)
insert_row-Ordered r (s ∷ rows) (above, h) = elim (Bool-cases (leb r.ts_observed s.ts_observed)) [
  | inl b ↦
      let le : r.ts_observed ≤ s.ts_observed = ground (arith, b) in
      rw b ((le, All-later r.ts_observed s.ts_observed rows le above), (above, h))
  | inr b ↦
      rw b (All-insert s.ts_observed r rows (ground (arith, b)) above, insert_row-Ordered r rows h)
]

sort_rows-Ordered : (rows : List LabeledRow) → Ordered (sort_rows rows)
unfolding sort_rows
sort_rows-Ordered [] = tt
sort_rows-Ordered (r ∷ rows) = insert_row-Ordered r (sort_rows rows) (sort_rows-Ordered rows)

length-insert_row :
    (r : LabeledRow) (rows : List LabeledRow) → length (insert_row r rows) ≡ suc (length rows)
unfolding insert_row
length-insert_row r [] = refl
length-insert_row r (s ∷ rows) = elim (Bool-cases (leb r.ts_observed s.ts_observed)) [
  | inl b ↦ rw b refl
  | inr b ↦ rw b (ap suc (length-insert_row r rows))
]

length-sort_rows : (rows : List LabeledRow) → length (sort_rows rows) ≡ length rows
unfolding sort_rows
length-sort_rows [] = refl
length-sort_rows (r ∷ rows) = length-insert_row r (sort_rows rows) ∙ ap suc (length-sort_rows rows)

In-insert_row :
    (x r : LabeledRow) (rows : List LabeledRow) → In x (r ∷ rows) → In x (insert_row r rows)
unfolding insert_row
In-insert_row x r [] m = m
In-insert_row x r (s ∷ rows) m = elim (Bool-cases (leb r.ts_observed s.ts_observed)) [
  | inl b ↦ rw b m
  | inr b ↦ rw b (elim (In-split m) [
    | inl q ↦ there (In-insert_row x r rows (here q))
    | inr k ↦ elim (In-split k) [
      | inl q ↦ here q
      | inr l ↦ there (In-insert_row x r rows (there l))
    ]
  ])
]

In-sort_rows : (x : LabeledRow) (rows : List LabeledRow) → In x rows → In x (sort_rows rows)
unfolding sort_rows
In-sort_rows x [] m = elim m [ ]
In-sort_rows x (r ∷ rows) m = elim (In-split m) [
  | inl q ↦ In-insert_row x r (sort_rows rows) (here q)
  | inr k ↦ In-insert_row x r (sort_rows rows) (there (In-sort_rows x rows k))
]

All-In :
    (P : LabeledRow → Type 0) (rows : List LabeledRow) (x : LabeledRow)
    → All P rows
    → In x rows
    → P x
All-In P [] x h m = elim m [ ]
All-In P (r ∷ rows) x (p, h) m = elim (In-split m) [ inl q ↦ rw q p | inr k ↦ All-In P rows x h k ]

In-drop : (n : ℕ) (x : LabeledRow) (rows : List LabeledRow) → In x (drop n rows) → In x rows
In-drop zero x rows m = m
In-drop (suc n) x [] m = m
In-drop (suc n) x (r ∷ rows) m = there (In-drop n x rows m)

older :
    (n : ℕ) (rows : List LabeledRow) (x y : LabeledRow)
    → Ordered rows
    → In x (take n rows)
    → In y (drop n rows)
    → x.ts_observed ≤ y.ts_observed
older zero rows x y h m k = elim m [ ]
older (suc n) [] x y h m k = elim m [ ]
older (suc n) (r ∷ rows) x y (above, h) m k = elim (In-split m) [
  | inl q ↦ rw q (All-In (λ s. r.ts_observed ≤ s.ts_observed) rows y above (In-drop n y rows k))
  | inr l ↦ older n rows x y h l k
]

-- The split of rows into what is trained on and what is evaluated on.
pub record IsSplit (rounded : ℕ) (rows train eval : List LabeledRow) : Type 0 where
  pub ordered : Ordered (train ++ eval)
  pub complete : (r : LabeledRow) → In r rows → In r (train ++ eval)
  pub same_size : length train + length eval ≡ length rows
  pub in_time : (r s : LabeledRow) → In r train → In s eval → r.ts_observed ≤ s.ts_observed
  pub both : 2 ≤ length rows → (1 ≤ length train) × (1 ≤ length eval)
  pub eval_length : 2 ≤ length rows → length eval ≡ min (length rows - 1) (max 1 rounded)

-- The split keeps every row and the number of rows, in the order of their times. No row that is
-- trained on is newer than one that is evaluated on. With two rows or more, neither side is empty,
-- and the evaluation side is the rounded fraction, at least one and at most all but one.
pub time_split-IsSplit :
    (rounded : ℕ) (rows : List LabeledRow)
    → IsSplit rounded rows (time_split rounded rows).0 (time_split rounded rows).1
unfolding time_split eval_size
time_split-IsSplit rounded rows =
    let ordered = sort_rows rows in
    let n = length ordered in
    let cut = n - eval_size rounded n in
    let size = length-sort_rows rows in
    let taken = length-take cut ordered in
    let dropped = length-drop cut ordered in
    record {
      ordered = rw (sym (take-append_drop cut ordered)) (sort_rows-Ordered rows);
      complete = λ r m. rw (sym (take-append_drop cut ordered)) (In-sort_rows r rows m);
      same_size = omega (arith, size, taken, dropped);
      in_time = λ r s m k. older cut ordered r s (sort_rows-Ordered rows) m k;
      both = λ h. (ground (arith, size, taken, h), ground (arith, size, dropped, h));
      eval_length = λ h. ground (arith, size, dropped, h);
    }
