-- ===== src/Floats.antt =====
-- Floating-point numbers as an interface: the operations that the code uses, and the laws of IEEE
-- numbers other than NaN that the proofs use.
pub mod Fixed
use pi_news_aggregator.Prelude.{ℕ, Bool, true, false, ◌≡◌, not, ◌⊎◌, if◌then◌else◌}

pub record Float : Type 1 where
  pub F : Type 0
  -- The literal n·10⁻ᵏ.
  pub dec : ℕ → ℕ → F
  pub add : F → F → F
  pub sub : F → F → F
  pub mul : F → F → F
  pub div : F → F → F
  pub neg : F → F
  pub exp : F → F
  pub log : F → F
  pub leb : F → F → Bool
  pub ltb : F → F → Bool

-- No NaN: the order is total. Rounding is monotone, and keeps the sign of a result.
pub record Ordered (fl : Float) : Type 0 where
  pub le_total : (a b : fl.F) → (fl.leb a b ≡ true) ⊎ (fl.leb b a ≡ true)
  pub le_trans : (a b c : fl.F) → fl.leb a b ≡ true → fl.leb b c ≡ true → fl.leb a c ≡ true
  pub lt_not : (a b : fl.F) → fl.ltb a b ≡ not (fl.leb b a)
  pub add_mono : (a b c : fl.F) → fl.leb b c ≡ true → fl.leb (fl.add a b) (fl.add a c) ≡ true
  pub add_zero_up : (a : fl.F) → fl.leb a (fl.add a (fl.dec 0 0)) ≡ true
  pub add_zero_down : (a : fl.F) → fl.leb (fl.add a (fl.dec 0 0)) a ≡ true
  pub sub_sign : (a b : fl.F) → fl.leb b a ≡ true → fl.leb (fl.dec 0 0) (fl.sub a b) ≡ true
  pub neg_sign : (a : fl.F) → fl.leb (fl.dec 0 0) a ≡ true → fl.leb (fl.neg a) (fl.dec 0 0) ≡ true
  pub mul_sign :
      (a b : fl.F)
      → fl.leb a (fl.dec 0 0) ≡ true
      → fl.leb (fl.dec 0 0) b ≡ true
      → fl.leb (fl.mul a b) (fl.dec 0 0) ≡ true

module _ (fl : Float) where
  -- max(a, b): the first, unless the second is greater
  abbrev pub fmax : fl.F → fl.F → fl.F
  fmax a b = if fl.ltb a b then b else a

  -- min(a, b): the first, unless the second is less
  abbrev pub fmin : fl.F → fl.F → fl.F
  fmin a b = if fl.ltb b a then b else a
