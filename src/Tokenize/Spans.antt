-- ===== src/Tokenize/Spans.antt =====
-- libs/tokenize/wordpiece.py, _basic_tokens: the words of a text and their spans.
use pi_news_aggregator.Prelude.{
  ℕ, zero, suc, ◌+◌, ◌≤◌, ◌<◌, ◌≡◌, inl, inr, true, false, ◌||◌, List, [], ◌∷◌, Text, length, take,
  drop, length-drop, All, Bool-cases, arith,
}
use package.pi_news_aggregator.Tokenize.{
  Unicode, WordPieceTokenizer, Word, is_blank, is_single, normalize, run_length, basic_loop,
  basic_tokens,
}

module _ (uni : Unicode) where
  -- A character of a word.
  abbrev pub Plain : ℕ → Type 0
  Plain c = (is_blank uni c || is_single uni c) ≡ false

  -- The text is at its end, or goes on with a character that ends a word.
  abbrev pub EndsWord : Text → Type 0
  EndsWord [] = Unit
  EndsWord (c ∷ cs) = (is_blank uni c || is_single uni c) ≡ true

  -- The words of a text that begins at the position `i`.
  pub data Split (tok : WordPieceTokenizer) : ℕ → Text → List (Word uni) → Type 0 where
    ended : {i : ℕ} → Split tok i [] []
    blank :
        {i ch : ℕ} {cs : Text} {words : List (Word uni)}
        → is_blank uni ch ≡ true
        → Split tok (suc i) cs words
        → Split tok i (ch ∷ cs) words
    single :
        {i ch : ℕ} {cs : Text} {words : List (Word uni)}
        → is_blank uni ch ≡ false
        → is_single uni ch ≡ true
        → Split tok (suc i) cs words
        → Split tok i (ch ∷ cs) ((normalize uni tok (ch ∷ []), i, suc i) ∷ words)
    run :
        {i n : ℕ} {text : Text} {words : List (Word uni)}
        → 1 ≤ n
        → n ≤ length text
        → All Plain (take n text)
        → EndsWord (drop n text)
        → Split tok (i + n) (drop n text) words
        → Split tok i text ((normalize uni tok (take n text), i, i + n) ∷ words)

  run_length-le : (text : Text) → run_length uni text ≤ length text
  unfolding run_length
  run_length-le [] = omega arith
  run_length-le (c ∷ cs) = elim (Bool-cases (is_blank uni c || is_single uni c)) [
    | inl t ↦ rw t (omega arith)
    | inr f ↦ rw f (omega (arith, run_length-le cs))
  ]

  run_length-Plain : (text : Text) → All Plain (take (run_length uni text) text)
  unfolding run_length
  run_length-Plain [] = tt
  run_length-Plain (c ∷ cs) = elim (Bool-cases (is_blank uni c || is_single uni c)) [
    | inl t ↦ rw t tt
    | inr f ↦ rw f (f, run_length-Plain cs)
  ]

  run_length-EndsWord : (text : Text) → EndsWord (drop (run_length uni text) text)
  unfolding run_length
  run_length-EndsWord [] = tt
  run_length-EndsWord (c ∷ cs) = elim (Bool-cases (is_blank uni c || is_single uni c)) [
    | inl t ↦ rw t t
    | inr f ↦ rw f (run_length-EndsWord cs)
  ]

  run_length-positive :
      (ch : ℕ) (cs : Text)
      → is_blank uni ch ≡ false
      → is_single uni ch ≡ false
      → 1 ≤ run_length uni (ch ∷ cs)
  unfolding run_length
  run_length-positive ch cs h k = rw (h, run_length) (rw (k, run_length) (omega arith))

  basic_loop-Split :
      (tok : WordPieceTokenizer) (fuel i : ℕ) (text : Text)
      → length text ≤ fuel
      → Split tok i text (basic_loop uni tok fuel i text)
  unfolding basic_loop
  basic_loop-Split tok fuel i [] h = ended
  basic_loop-Split tok zero i (ch ∷ cs) h = absurd (omega (arith, h))
  basic_loop-Split tok (suc fuel) i (ch ∷ cs) h = elim (Bool-cases (is_blank uni ch)) [
    | inl b ↦ rw (b, basic_loop) (blank b (basic_loop-Split tok fuel (suc i) cs (omega (arith, h))))
    | inr nb ↦
        rw (nb, basic_loop)
          (elim (Bool-cases (is_single uni ch)) [
            | inl s ↦
                rw (s, basic_loop)
                  (single nb s (basic_loop-Split tok fuel (suc i) cs (omega (arith, h))))
            | inr ns ↦
                let text = ch ∷ cs in
                let n = run_length uni text in
                let some_ : 1 ≤ n = run_length-positive ch cs nb ns in
                let shorter : length (drop n text) ≤ fuel =
                  omega (arith, h, some_, length-drop n text) in
                rw (ns, basic_loop)
                  (run some_ (run_length-le text) (run_length-Plain text) (run_length-EndsWord text)
                    (basic_loop-Split tok fuel (i + n) (drop n text) shorter))
          ])
  ]

  -- The words of a text are, from left to right: each punctuation or CJK character alone, and each
  -- longest run of characters that are neither these nor blank. White space and control characters
  -- stand in no word. A word's span is where its characters stand in the text, and its text is
  -- these characters normalized.
  pub basic_tokens-Split :
      (tok : WordPieceTokenizer) (text : Text) → Split tok 0 text (basic_tokens uni tok text)
  unfolding basic_tokens
  basic_tokens-Split tok text = basic_loop-Split tok (length text) 0 text (omega arith)

  -- Spans that are not empty, do not overlap, go from left to right and lie between `low` and `high`.
  abbrev pub Increasing : ℕ → List (Word uni) → ℕ → Type 0
  Increasing low [] high = low ≤ high
  Increasing low ((word, s, e) ∷ words) high = (low ≤ s) × (s < e) × Increasing e words high

  Increasing-lower :
      (low low' : ℕ) (words : List (Word uni)) (high : ℕ)
      → low ≤ low'
      → Increasing low' words high
      → Increasing low words high
  Increasing-lower low low' [] high h k = omega (arith, h, k)
  Increasing-lower low low' ((word, s, e) ∷ words) high h (a, b, c) = (omega (arith, h, a), b, c)

  Split-Increasing :
      {tok : WordPieceTokenizer} {i : ℕ} {text : Text} {words : List (Word uni)} (high : ℕ)
      → i + length text ≡ high
      → Split tok i text words
      → Increasing i words high
  Split-Increasing high h ended = omega (arith, h)
  Split-Increasing {i = i} {words = words} high h (blank b s) =
      Increasing-lower i (suc i) words high (omega arith)
        (Split-Increasing high (omega (arith, h)) s)
  Split-Increasing high h (single nb b s) =
      (omega arith, omega arith, Split-Increasing high (omega (arith, h)) s)
  Split-Increasing {text = text} high h (run {n = n} p le plain ends s) = (
    omega arith,
    omega (arith, p),
    Split-Increasing high (omega (arith, h, le, length-drop n text)) s,
  )

  -- The spans of a text's words are not empty, do not overlap, go from left to right and end within
  -- the text.
  pub basic_tokens-Increasing :
      (tok : WordPieceTokenizer) (text : Text)
      → Increasing 0 (basic_tokens uni tok text) (length text)
  basic_tokens-Increasing tok text =
      Split-Increasing (length text) (omega arith) (basic_tokens-Split tok text)
