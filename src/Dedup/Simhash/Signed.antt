-- ===== src/Dedup/Simhash/Signed.antt =====
-- The fingerprint fits into 64 bits, and goes through a bigint unchanged.
use pi_news_aggregator.Prelude.{
  ℕ, zero, suc, ◌+◌, ◌*◌, ◌^◌, ◌<◌, ◌≡◌, refl, leb, ltb, ℤ, pos, negsuc, List, map, Text, length,
  Bool-cases, inl, inr, arith,
}
use native.Mathlib.Numerals.{unary_clauses}
use pi_news_aggregator.Dedup.Simhash.{
  votes, fingerprint, features, simhash64, to_signed64, from_signed64,
}

-- The numbers of a bigint.
abbrev pub InBigint : ℤ → Type 0
InBigint (pos n) = n < 2 ^ 63
InBigint (negsuc n) = n < 2 ^ 63

two_pow : (n : ℕ) → 2 ^ suc n ≡ 2 ^ n + 2 ^ n
two_pow n = simp unary_clauses (omega arith)

fingerprint-lt : (bits : ℕ) (hs : List ℕ) → fingerprint bits hs < 2 ^ bits
unfolding fingerprint
fingerprint-lt zero hs = omega arith
fingerprint-lt (suc bit) hs = elim (Bool-cases (ltb (length hs) (2 * votes bit hs))) [
  | inl t ↦ rw t (omega (arith, fingerprint-lt bit hs, two_pow bit))
  | inr f ↦ rw f (omega (arith, fingerprint-lt bit hs, two_pow bit))
]

signed-back : (v : ℕ) → v < 2 ^ 64 → (from_signed64 (to_signed64 v) ≡ v) × InBigint (to_signed64 v)
unfolding to_signed64
signed-back v h = elim (Bool-cases (leb (2 ^ 63) v)) [
  | inl t ↦ rw t (unfold from_signed64 in ground (arith, t, h), ground (arith, t, h))
  | inr f ↦ rw f (unfold from_signed64 in refl, ground (arith, f))
]

-- The fingerprint of any text, stored as a bigint and read back, is the fingerprint; what is stored
-- lies in the range of a bigint.
pub from_signed64-to_signed64-simhash64 :
    (h64 : Text → ℕ) (toks : List Text)
    → (from_signed64 (to_signed64 (simhash64 h64 toks)) ≡ simhash64 h64 toks)
      × InBigint (to_signed64 (simhash64 h64 toks))
from_signed64-to_signed64-simhash64 h64 toks =
    signed-back (simhash64 h64 toks)
      (unfold simhash64 in fingerprint-lt 64 (map h64 (features toks)))
