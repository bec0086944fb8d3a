-- ===== src/Retrain/Gate.antt =====
-- services/retrain/evalx.py, should_promote: when a candidate is promoted.
use pi_news_aggregator.Prelude.{
  ℕ, ◌≤◌, ◌≡◌, ◌↔◌, refl, true, false, Option, none, some, Dict, nat_eq, arith, inl, inr,
  Bool-cases,
}
use pi_news_aggregator.Floats.{Float}
use package.pi_news_aggregator.Retrain.{count_for, meets_floors, should_promote}

-- A candidate that is not worse than the classifier in use, if there is one.
abbrev pub NotWorse : (fl : Float) → fl.F → Option fl.F → Type 0
NotWorse fl candidate none = Unit
NotWorse fl candidate (some current) = fl.ltb candidate current ≡ false

floors_iff :
    (min_rows min_per_class n_labeled : ℕ) (counts : Dict ℕ ℕ)
    → ((meets_floors min_rows min_per_class n_labeled counts).0 ≡ true) ↔ (
        (min_rows ≤ n_labeled)
        × (min_per_class ≤ count_for 0 counts)
        × (min_per_class ≤ count_for 1 counts))
unfolding meets_floors
floors_iff min_rows min_per_class n_labeled counts =
    (λ h. (ground (arith, h), ground (arith, h), ground (arith, h)), λ h. ground (arith, h))

promote-cases :
    (fl : Float) (min_rows min_per_class : ℕ) (candidate : fl.F) (current : Option fl.F)
    (n_labeled : ℕ) (counts : Dict ℕ ℕ)
    → ((should_promote fl min_rows min_per_class candidate current n_labeled counts).0 ≡ true) ↔ (
        ((meets_floors min_rows min_per_class n_labeled counts).0 ≡ true)
        × NotWorse fl candidate current)
unfolding should_promote
promote-cases fl min_rows min_per_class candidate none n_labeled counts =
    elim (Bool-cases (meets_floors min_rows min_per_class n_labeled counts).0) [
      | inl t ↦ (λ h. (t, tt), λ h. rw t refl)
      | inr f ↦ (λ h. absurd (clash (rw f at h)), λ h. absurd (clash (rw f at h.0)))
    ]
  where
    clash : false ≡ true → ⊥
    clash q = cc q
promote-cases fl min_rows min_per_class candidate (some current) n_labeled counts =
    elim (Bool-cases (meets_floors min_rows min_per_class n_labeled counts).0) [
      | inr f ↦ (λ h. absurd (clash (rw f at h)), λ h. absurd (clash (rw f at h.0)))
      | inl t ↦ elim (Bool-cases (fl.ltb candidate current)) [
        | inl w ↦ (λ h. absurd (clash (rw w at (rw t at h))), λ h. absurd (clash (rw h.1 at w)))
        | inr w ↦ (λ h. (t, w), λ h. rw t (rw w refl))
      ]
    ]
  where
    clash : false ≡ true → ⊥
    clash q = cc q

-- A candidate is promoted exactly if there are enough labelled rows in all and of each of the two
-- classes, and its F1 is not below that of the classifier in use, if there is one: a tie is enough.
pub should_promote_iff :
    (fl : Float) (min_rows min_per_class : ℕ) (candidate : fl.F) (current : Option fl.F)
    (n_labeled : ℕ) (counts : Dict ℕ ℕ)
    → ((should_promote fl min_rows min_per_class candidate current n_labeled counts).0 ≡ true) ↔ (
        (min_rows ≤ n_labeled)
        × (min_per_class ≤ count_for 0 counts)
        × (min_per_class ≤ count_for 1 counts)
        × NotWorse fl candidate current)
should_promote_iff fl min_rows min_per_class candidate current n_labeled counts =
    let gate = promote-cases fl min_rows min_per_class candidate current n_labeled counts in
    let floors = floors_iff min_rows min_per_class n_labeled counts in
    (
      λ h. let (a, w) = gate.0 h in let (p, q, r) = floors.0 a in (p, q, r, w),
      λ (p, q, r, w). gate.1 (floors.1 (p, q, r), w),
    )
