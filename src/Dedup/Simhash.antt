-- ===== src/Dedup/Simhash.antt =====
-- libs/dedup/simhash.py. `str.casefold`, the regular expression of words and blake2b are parameters:
-- `words` is the list that `_TOKEN.findall(text.casefold())` returns, `h64` the digest as a number.
pub mod Signed
use Prim.Native.Nat.{bit_xor, bit_and}
use pi_news_aggregator.Prelude.{
  ℕ, zero, suc, ◌+◌, ◌*◌, ◌/◌, ◌%◌, ◌^◌, ltb, List, [], ◌∷◌, ◌++◌, map, Text, length, if◌then◌else◌,
  ◌-◌, leb, ℤ, pos, negsuc,
}

-- int.bit_count() of a number below 2^rounds
pub bit_count : ℕ → ℕ → ℕ
bit_count zero n = 0
bit_count (suc rounds) n = n % 2 + bit_count rounds (n / 2)

unfoldable pub hamming64 : ℕ → ℕ → ℕ
unfolding bit_count
hamming64 a b = bit_count 64 (bit_and (bit_xor a b) 0xFFFFFFFFFFFFFFFF)

-- " ".join(tokens)
unfoldable pub join_tokens : List Text → Text
join_tokens [] = []
join_tokens (t ∷ []) = t
join_tokens (t ∷ u ∷ ts) = t ++ b' ' ∷ join_tokens (u ∷ ts)

-- The runs of _SHINGLE = 2 tokens.
unfoldable pub shingles : List Text → List Text
unfolding join_tokens
shingles (a ∷ b ∷ toks) = join_tokens (a ∷ b ∷ []) ∷ shingles (b ∷ toks)
shingles _ = []

unfoldable pub features : List Text → List Text
unfolding shingles
features [] = []
features (a ∷ []) = join_tokens (a ∷ []) ∷ []
features (a ∷ b ∷ toks) = shingles (a ∷ b ∷ toks)

-- How many of the digests have the bit set. The others count against it.
unfoldable pub votes : ℕ → List ℕ → ℕ
votes bit [] = 0
votes bit (h ∷ hs) = h / 2 ^ bit % 2 + votes bit hs

-- The bits below `bits` that more digests have than have not.
unfoldable pub fingerprint : ℕ → List ℕ → ℕ
unfolding votes
fingerprint zero hs = 0
fingerprint (suc bit) hs =
    (if ltb (length hs) (2 * votes bit hs) then 2 ^ bit else 0) + fingerprint bit hs

-- With no feature there is no vote, and no bit is set.
unfoldable pub simhash64 : (Text → ℕ) → List Text → ℕ
unfolding fingerprint features
simhash64 h64 toks = fingerprint 64 (map h64 (features toks))

-- The signed number with the same 64 bits, for a Postgres bigint.
unfoldable pub to_signed64 : ℕ → ℤ
to_signed64 v = if leb (2 ^ 63) v then negsuc (2 ^ 64 - v - 1) else pos v

-- For a bigint, which is at least -2 ^ 63.
unfoldable pub from_signed64 : ℤ → ℕ
from_signed64 (pos n) = n
from_signed64 (negsuc n) = 2 ^ 64 - (n + 1)
