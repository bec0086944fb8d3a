-- ===== src/Tokenize/Pieces.antt =====
-- libs/tokenize/wordpiece.py, _wordpiece: the pieces of a word.
use pi_news_aggregator.Prelude.{
  ℕ, zero, suc, ◌≤◌, ◌≡◌, inl, inr, Bool, true, false, ltb, Option, none, some, List, [], ◌∷◌, Text,
  Dict, length, drop, length-drop, Longest, longest_of, longest_of-Longest, Longest-positive,
  Bool-cases, Option-cases, arith, subst,
}
use package.pi_news_aggregator.Tokenize.{
  WordPieceTokenizer, max_chars_per_word, piece_at, piece_loop, wordpiece,
}

-- A word cut from left to right, each time at the longest prefix that the vocabulary has, with "##"
-- before every piece but the first. There is no result if some rest begins with no piece.
pub data Pieces (vocab : Dict Text ℕ) : Bool → Text → Option (List ℕ) → Type 0 where
  ended : {inside : Bool} → Pieces vocab inside [] (some [])
  piece :
      {inside : Bool} {c : ℕ} {cs : Text} {ids : List ℕ} (id n : ℕ)
      → Longest (piece_at vocab inside (c ∷ cs)) (length (c ∷ cs)) (some (id, n))
      → Pieces vocab true (drop n (c ∷ cs)) (some ids)
      → Pieces vocab inside (c ∷ cs) (some (id ∷ ids))
  stuck :
      {inside : Bool} {c : ℕ} {cs : Text}
      → Longest (piece_at vocab inside (c ∷ cs)) (length (c ∷ cs)) none
      → Pieces vocab inside (c ∷ cs) none
  stuck_later :
      {inside : Bool} {c : ℕ} {cs : Text} (id n : ℕ)
      → Longest (piece_at vocab inside (c ∷ cs)) (length (c ∷ cs)) (some (id, n))
      → Pieces vocab true (drop n (c ∷ cs)) none
      → Pieces vocab inside (c ∷ cs) none

drop-shorter : (n c : ℕ) (cs : Text) → 1 ≤ n → length (drop n (c ∷ cs)) ≤ length cs
drop-shorter zero c cs p = absurd (omega (arith, p))
drop-shorter (suc n) c cs p = omega (arith, length-drop n cs)

piece_loop-Pieces :
    (vocab : Dict Text ℕ) (fuel : ℕ) (inside : Bool) (rest : Text)
    → length rest ≤ fuel
    → Pieces vocab inside rest (piece_loop vocab fuel inside rest)
unfolding piece_loop
piece_loop-Pieces vocab fuel inside [] h = ended
piece_loop-Pieces vocab zero inside (c ∷ cs) h = absurd (omega (arith, h))
piece_loop-Pieces vocab (suc fuel) inside (c ∷ cs) h =
    let at = piece_at vocab inside (c ∷ cs) in
    let limit = length (c ∷ cs) in
    let best = longest_of-Longest at limit in
    elim (Option-cases (longest_of at limit)) [
      | inl q ↦ rw (q, piece_loop) (stuck (subst (λ o. Longest at limit o) q best))
      | inr ((id, n), q) ↦
          let first = subst (λ o. Longest at limit o) q best in
          let left = drop n (c ∷ cs) in
          let rest =
            piece_loop-Pieces vocab fuel true left
              (omega (arith, h, drop-shorter n c cs (Longest-positive at limit first))) in
          rw (q, piece_loop)
            (elim (Option-cases (piece_loop vocab fuel true left)) [
              | inl k ↦
                  rw (k, piece_loop)
                    (stuck_later id n first (subst (λ o. Pieces vocab true left o) k rest))
              | inr (ids, k) ↦
                  rw (k, piece_loop)
                    (piece id n first (subst (λ o. Pieces vocab true left o) k rest))
            ])
    ]

-- The result of `wordpiece`, from the pieces of the word.
pub data Wordpiece (tok : WordPieceTokenizer) (token : Text) : List ℕ → Type 0 where
  too_long : ltb max_chars_per_word (length token) ≡ true → Wordpiece tok token (tok.unk_id ∷ [])
  unknown :
      ltb max_chars_per_word (length token) ≡ false
      → Pieces tok.vocab false token none
      → Wordpiece tok token (tok.unk_id ∷ [])
  cut :
      {ids : List ℕ}
      → ltb max_chars_per_word (length token) ≡ false
      → Pieces tok.vocab false token (some ids)
      → Wordpiece tok token ids

-- A word of at most 100 characters becomes the ids of its greedy longest-match pieces, which cover
-- it from its first character to its last. If no piece of the vocabulary begins some rest, or the
-- word is longer, the whole word becomes the one id of [UNK].
pub wordpiece-Wordpiece :
    (tok : WordPieceTokenizer) (token : Text) → Wordpiece tok token (wordpiece tok token)
unfolding wordpiece
wordpiece-Wordpiece tok token =
    let pieces = piece_loop-Pieces tok.vocab (length token) false token (omega arith) in
    elim (Bool-cases (ltb max_chars_per_word (length token))) [
      | inl t ↦ rw t (too_long t)
      | inr f ↦ rw f (elim (Option-cases (piece_loop tok.vocab (length token) false token)) [
        | inl q ↦
            rw (q, wordpiece) (unknown f (subst (λ o. Pieces tok.vocab false token o) q pieces))
        | inr (ids, q) ↦
            rw (q, wordpiece) (cut f (subst (λ o. Pieces tok.vocab false token o) q pieces))
      ])
    ]
