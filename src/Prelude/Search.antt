-- ===== src/Prelude/Search.antt =====
-- A search downwards through the numbers 1 … limit, and what it finds.
use mathlib.Core.Path.{◌≡◌}
use mathlib.Core.Logic.{◌⊎◌, inl, inr}
use Prim.Native.Nat.{ℕ, zero, suc, ◌≤◌, ◌<◌}
use mathlib.Core.Option.{Option, none, some}
use native.Mathlib.Omega.{arith}
use package.pi_news_aggregator.Prelude.Tests.{Option-cases}

module _ {ℓ} {V : Type ℓ} where
  -- for n in range(limit, 0, -1): the first `n` that has a value
  unfoldable pub longest_of : (ℕ → Option V) → ℕ → Option (V × ℕ)
  longest_of at zero = none
  longest_of at (suc limit) =
      let shorter = longest_of at limit in
      elim (at (suc limit)) [ some v ↦ some (v, suc limit) | none ↦ shorter ]

  -- No number above `low` and at most `high` has a value.
  abbrev pub NonePast : (ℕ → Option V) → ℕ → ℕ → Type ℓ
  NonePast at low high = (m : ℕ) → low < m → m ≤ high → at m ≡ none

  pub data Longest (at : ℕ → Option V) (limit : ℕ) : Option (V × ℕ) → Type ℓ where
    found :
        (v : V) (n : ℕ)
        → 1 ≤ n
        → n ≤ limit
        → at n ≡ some v
        → NonePast at n limit
        → Longest at limit (some (v, n))
    missing : NonePast at 0 limit → Longest at limit none

  extend_none :
      (at : ℕ → Option V) (low limit : ℕ)
      → at (suc limit) ≡ none
      → NonePast at low limit
      → NonePast at low (suc limit)
  extend_none at low limit q old m h k = elim (cases m k) [ inl e ↦ rw e q | inr l ↦ old m h l ]
    where
      cases : (m : ℕ) → m ≤ suc limit → (m ≡ suc limit) ⊎ (m ≤ limit)
      cases m k = grind arith

  extend :
      {r : Option (V × ℕ)} (at : ℕ → Option V) (limit : ℕ)
      → at (suc limit) ≡ none
      → Longest at limit r
      → Longest at (suc limit) r
  extend at limit q (found v n p l h past) =
      found v n p (omega (arith, l)) h (extend_none at n limit q past)
  extend at limit q (missing past) = missing (extend_none at 0 limit q past)

  pub longest_of-Longest : (at : ℕ → Option V) (limit : ℕ) → Longest at limit (longest_of at limit)
  unfolding longest_of
  longest_of-Longest at zero = missing (λ m h k. absurd (omega (arith, h, k)))
  longest_of-Longest at (suc limit) = elim (Option-cases (at (suc limit))) [
    | inl q ↦ rw (q, longest_of) (extend at limit q (longest_of-Longest at limit))
    | inr (v, q) ↦
        rw (q, longest_of)
          (found v (suc limit) (omega arith) (omega arith) q
            (λ m h k. absurd (omega (arith, h, k))))
  ]

  -- The number that is found is at least one.
  pub Longest-positive :
      {v : V} {n : ℕ} (at : ℕ → Option V) (limit : ℕ) → Longest at limit (some (v, n)) → 1 ≤ n
  Longest-positive at limit (found _ _ p l h past) = p
