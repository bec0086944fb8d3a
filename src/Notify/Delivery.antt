-- ===== src/Notify/Delivery.antt =====
-- services/notify/main.py: which alerts are pushed over any number of cycles.
use pi_news_aggregator.Prelude.{
  take-append_drop, ℕ, suc, ◌+◌, ◌≤◌, ◌<◌, ◌≡◌, refl, sym, ap, ◌∙◌, inl, inr, Bool, true, false,
  ltb, some, List, [], ◌∷◌, ◌++◌, length, take, drop, All, Bool-cases, append_assoc, arith, subst,
}
use package.pi_news_aggregator.Notify.{Alert, Notifier, newer, push_loop, cycle_from, cycle}

-- The rows are in the order of their times, and no two have the same.
abbrev pub Strict : List Alert → Type 0
Strict [] = Unit
Strict (a ∷ table) = All (λ b. a.ts < b.ts) table × Strict table

newer_same :
    (cursor : ℕ) (table : List Alert) → All (λ b. cursor < b.ts) table → newer cursor table ≡ table
unfolding newer
newer_same cursor [] h = refl
newer_same cursor (a ∷ table) (p, h) =
    rw (later cursor a.ts p) (ap (λ l. a ∷ l) (newer_same cursor table h))
  where
    later : (x y : ℕ) → x < y → ltb x y ≡ true
    later x y p = ground (arith, p)

cons_inj : {a b : Alert} {l m : List Alert} → a ∷ l ≡ b ∷ m → (a ≡ b) × (l ≡ m)
cons_inj q = (cc q, cc q)

nil_cons : {a : Alert} {l : List Alert} → [] ≡ a ∷ l → ⊥
nil_cons q = cc q

newer-first :
    (cursor : ℕ) (table : List Alert) (row : Alert) (rest : List Alert)
    → newer cursor table ≡ row ∷ rest
    → cursor < row.ts
unfolding newer
newer-first cursor [] row rest q = absurd (nil_cons q)
newer-first cursor (a ∷ table) row rest q = elim (Bool-cases (ltb cursor a.ts)) [
  | inl t ↦
      let (same, tail) = cons_inj (rw t at q) in
      subst (λ b. cursor < b.ts) same (after cursor a.ts t)
  | inr f ↦ newer-first cursor table row rest (rw f at q)
]
  where
    after : (x y : ℕ) → ltb x y ≡ true → x < y
    after x y h = ground (arith, h)

All-weaken :
    (low high : ℕ) (table : List Alert)
    → low ≤ high
    → All (λ b. high < b.ts) table
    → All (λ b. low < b.ts) table
All-weaken low high [] h k = tt
All-weaken low high (a ∷ table) h (p, k) = (omega (arith, h, p), All-weaken low high table h k)

-- Behind the first row that is newer than the cursor, exactly the others are newer than that row.
newer-head :
    (cursor : ℕ) (table : List Alert) (row : Alert) (rest : List Alert)
    → Strict table
    → newer cursor table ≡ row ∷ rest
    → newer row.ts table ≡ rest
unfolding newer
newer-head cursor [] row rest s q = absurd (nil_cons q)
newer-head cursor (a ∷ table) row rest (above, s) q = elim (Bool-cases (ltb cursor a.ts)) [
  | inr f ↦
      let q' = rw f at q in
      rw (older cursor a.ts row.ts f (newer-first cursor table row rest q'))
        (newer-head cursor table row rest s q')
  | inl t ↦
      let (same, tail) = cons_inj (rw t at q) in
      subst (λ b. newer b.ts (a ∷ table) ≡ rest) same
        (rw (self a.ts) (
          newer_same a.ts table above
          ∙ sym (newer_same cursor table (All-weaken cursor a.ts table (below cursor a.ts t) above))
          ∙ tail))
]
  where
    older : (c x y : ℕ) → ltb c x ≡ false → c < y → ltb y x ≡ false
    older c x y h k = ground (arith, h, k)

    self : (x : ℕ) → ltb x x ≡ false
    self x = ground arith

    below : (c x : ℕ) → ltb c x ≡ true → c ≤ x
    below c x h = ground (arith, h)

-- What a cycle did with the rows behind the cursor.
record Sent (table : List Alert) (cursor pushed : ℕ) (out : List Alert) (n : Notifier)
    : Type 0 where
  cursor' : ℕ
  moved : n.cursor ≡ some cursor'
  counted : n.pushed ≡ length out + pushed
  nothing_lost : out ++ newer cursor' table ≡ newer cursor table

push_loop-Sent :
    (push : Alert → Bool) (table rows more : List Alert) (cursor pushed : ℕ)
    → Strict table
    → newer cursor table ≡ rows ++ more
    → let r = push_loop push rows (record { cursor = some cursor; pushed = pushed }) in
      Sent table cursor pushed r.0 r.1
unfolding push_loop
push_loop-Sent push table [] more cursor pushed s q = record {
  cursor' = cursor;
  moved = refl;
  counted = omega arith;
  nothing_lost = refl;
}
push_loop-Sent push table (row ∷ rows) more cursor pushed s q = elim (Bool-cases (push row)) [
  | inr f ↦
      rw f (record { cursor' = cursor; moved = refl; counted = omega arith; nothing_lost = refl })
  | inl t ↦
      let next = newer-head cursor table row (rows ++ more) s q in
      let r = push_loop-Sent push table rows more row.ts (suc pushed) s next in
      rw t (record {
        cursor' = r.cursor';
        moved = r.moved;
        counted = omega (arith, r.counted);
        nothing_lost = ap (λ l. row ∷ l) (r.nothing_lost ∙ next) ∙ sym q;
      })
]

-- Cycles one after the other over a table that stays as it is, each with its own failures.
unfoldable pub cycles : ℕ → ℕ → List Alert → List (Alert → Bool) → Notifier → List Alert × Notifier
unfolding cycle cycle_from
cycles batch now table [] n = ([], n)
cycles batch now table (push ∷ pushes) n =
    let (out, n') = cycle push batch now table n in
    let (outs, n'') = cycles batch now table pushes n' in (out ++ outs, n'')

-- From the cursor, the alerts whose push returned and those still behind the cursor are together
-- those that were behind it at first.
abbrev pub Delivers : List Alert → ℕ → ℕ → List Alert × Notifier → Type 0
Delivers table cursor pushed (out, n) =
    (cursor' : ℕ) × (n.cursor ≡ some cursor')
    × (n.pushed ≡ length out + pushed)
    × (out ++ newer cursor' table ≡ newer cursor table)

length-out : (l m : List Alert) → length (l ++ m) ≡ length l + length m
length-out [] m = omega arith
length-out (a ∷ l) m = omega (arith, length-out l m)

Delivers-append :
    (table out outs : List Alert) (cursor pushed : ℕ) (n n' : Notifier)
    → (sent : Sent table cursor pushed out n) → Delivers table sent.cursor' n.pushed (outs, n')
    → Delivers table cursor pushed (out ++ outs, n')
Delivers-append table out outs cursor pushed n n' sent (cursor', moved, counted, same) = (
  cursor',
  moved,
  omega (arith, counted, sent.counted, length-out out outs),
  append_assoc out outs (newer cursor' table) ∙ ap (λ l. out ++ l) same ∙ sent.nothing_lost,
)

abbrev at_cursor : ℕ → ℕ → Notifier
at_cursor cursor pushed = record { cursor = some cursor; pushed = pushed }

-- Over any number of cycles from a cursor, whatever pushes raise, over a table that stays as it is and
-- in which no two alerts have the same time: the alerts whose push returned and those still behind
-- the cursor are together exactly the alerts that were behind the cursor at first, in order. So none is
-- left out, and none is pushed again once its push has returned; one whose push raised, which may have
-- reached the topic, is pushed again. The counter grows by the pushes that returned.
pub cycles-Delivers :
    (batch now : ℕ) (table : List Alert) (pushes : List (Alert → Bool)) (cursor pushed : ℕ)
    → Strict table
    → Delivers table cursor pushed
        (cycles batch now table pushes (record { cursor = some cursor; pushed = pushed }))
unfolding cycles cycle cycle_from
cycles-Delivers batch now table [] cursor pushed s = (cursor, refl, omega arith, refl)
cycles-Delivers batch now table (push ∷ pushes) cursor pushed s =
    let all = newer cursor table in
    let first : List Alert × Notifier =
      cycle push batch now table (record { cursor = some cursor; pushed = pushed }) in
    let n = first.1 in
    let sent : Sent table cursor pushed first.0 n =
      push_loop-Sent push table (take batch all) (drop batch all) cursor pushed s
        (take-append_drop batch all) in
    let state : at_cursor sent.cursor' n.pushed ≡ n =
      λ i. record { cursor = sym sent.moved i; pushed = n.pushed } in
    let later = cycles-Delivers batch now table pushes sent.cursor' n.pushed s in
    let rest = cycles batch now table pushes n in
    Delivers-append table first.0 rest.0 cursor pushed n rest.1 sent (
      subst (λ m. Delivers table sent.cursor' n.pushed (cycles batch now table pushes m)) state
        later)
