-- ===== src/Notify.antt =====
-- services/notify/main.py, Notifier: alerts are pushed in the order of their times, behind a cursor, each at least once. The
-- table is the list of its rows in the order of the query, `ORDER BY a.ts`.
pub mod Delivery
use pi_news_aggregator.Prelude.{
  ℕ, suc, Bool, true, false, ltb, Option, none, some, List, [], ◌∷◌, length, take, if◌then◌else◌,
}

pub record Alert : Type 0 where
  pub story_id : ℕ
  pub ts : ℕ

pub record Notifier : Type 0 where
  pub cursor : Option ℕ
  pub pushed : ℕ

-- WHERE a.ts > cursor
unfoldable pub newer : ℕ → List Alert → List Alert
newer cursor [] = []
newer cursor (a ∷ table) =
    let rest = newer cursor table in if ltb cursor a.ts then a ∷ rest else rest

-- _NEWEST_TS, or the time now if there is no row
unfoldable pub newest_ts : ℕ → List Alert → ℕ
newest_ts now [] = now
newest_ts now (a ∷ []) = a.ts
newest_ts now (a ∷ b ∷ table) = newest_ts now (b ∷ table)

-- The loop over the rows: `push` says whether _push returned, or raised and ended the loop; one that
-- raised may have reached the topic all the same. The alerts whose push returned come back in order.
unfoldable pub push_loop : (Alert → Bool) → List Alert → Notifier → List Alert × Notifier
push_loop push [] n = ([], n)
push_loop push (row ∷ rows) n =
    let (out, n') = push_loop push rows (record { cursor = some row.ts; pushed = suc n.pushed }) in
    if push row then (row ∷ out, n') else ([], n)

-- With a cursor. `batch` is BATCH.
unfoldable pub cycle_from : (Alert → Bool) → ℕ → List Alert → ℕ → Notifier → List Alert × Notifier
unfolding push_loop
cycle_from push batch table cursor n = push_loop push (take batch (newer cursor table)) n

unfoldable pub cycle : (Alert → Bool) → ℕ → ℕ → List Alert → Notifier → List Alert × Notifier
cycle push batch now table n = elim n.cursor [
  | none ↦
      let cursor = newest_ts now table in
      cycle_from push batch table cursor (record { cursor = some cursor; pushed = n.pushed })
  | some cursor ↦ cycle_from push batch table cursor n
]
