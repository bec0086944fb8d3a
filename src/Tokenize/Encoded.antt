-- ===== src/Tokenize/Encoded.antt =====
-- libs/tokenize/wordpiece.py, encode: the shape of an encoding.
use pi_news_aggregator.Prelude.{
  ℕ, zero, suc, ◌+◌, ◌≤◌, ◌<◌, ◌≡◌, refl, sym, ap, ◌∙◌, inl, inr, ltb, Option, none, some, List, [],
  ◌∷◌, ◌++◌, Text, length, length-append, length-replicate, replicate, append_assoc, append-nil, In,
  here, there, In-append, In-split, Bool-cases, arith, subst,
}
use package.pi_news_aggregator.Tokenize.{
  Unicode, WordPieceTokenizer, Encoding, basic_tokens, wordpiece, encode_loop, close, encode,
}

abbrev pub Words : Type 0
Words = List (Text × ℕ × ℕ)

-- The pieces of the words, one word after the other.
unfoldable pub pieces_of : WordPieceTokenizer → Words → List ℕ
pieces_of tok [] = []
pieces_of tok ((word, s, e) ∷ words) = wordpiece tok word ++ pieces_of tok words

-- Each piece with the index of its word, counted from `index`.
unfoldable pub indices_of : WordPieceTokenizer → ℕ → Words → List (Option ℕ)
indices_of tok index [] = []
indices_of tok index ((word, s, e) ∷ words) =
    replicate (length (wordpiece tok word)) (some index) ++ indices_of tok (suc index) words

abbrev pub spans_of : Words → List (ℕ × ℕ)
spans_of [] = []
spans_of ((word, s, e) ∷ words) = (s, e) ∷ spans_of words

-- The next word, if there is one, does not fit behind `n` ids with the last id.
abbrev pub DoesNotFit : WordPieceTokenizer → ℕ → Words → Type 0
DoesNotFit tok n [] = Unit
DoesNotFit tok n ((word, s, e) ∷ words) = tok.max_len < n + length (wordpiece tok word) + 1

-- What the loop adds to an encoding: the words that fit, whole and in order, up to the first that
-- does not.
record Extended (tok : WordPieceTokenizer) (index : ℕ) (words : Words) (enc r : Encoding)
    : Type 0 where
  kept : Words
  left : Words
  split : words ≡ kept ++ left
  ids : r.ids ≡ enc.ids ++ pieces_of tok kept
  word_ids : r.word_ids ≡ enc.word_ids ++ indices_of tok index kept
  spans : r.word_spans ≡ enc.word_spans ++ spans_of kept
  fits : length enc.ids + 1 ≤ tok.max_len → length r.ids + 1 ≤ tok.max_len
  stops : DoesNotFit tok (length r.ids) left

encode_loop-Extended :
    (tok : WordPieceTokenizer) (index : ℕ) (words : Words) (enc : Encoding)
    → Extended tok index words enc (encode_loop tok index words enc)
unfolding encode_loop pieces_of indices_of
encode_loop-Extended tok index [] enc = record {
  kept = [];
  left = [];
  split = refl;
  ids = sym (append-nil enc.ids);
  word_ids = sym (append-nil enc.word_ids);
  spans = sym (append-nil enc.word_spans);
  fits = λ h. h;
  stops = tt;
}
encode_loop-Extended tok index ((word, s, e) ∷ words) enc =
    let piece_ids = wordpiece tok word in
    let indices = replicate (length piece_ids) (some index) in
    let next : Encoding = record {
      ids = enc.ids ++ piece_ids;
      word_ids = enc.word_ids ++ indices;
      word_spans = enc.word_spans ++ (s, e) ∷ [];
    } in
    elim (Bool-cases (ltb tok.max_len (length enc.ids + length piece_ids + 1))) [
      | inl over ↦ rw over (record {
        kept = [];
        left = (word, s, e) ∷ words;
        split = refl;
        ids = sym (append-nil enc.ids);
        word_ids = sym (append-nil enc.word_ids);
        spans = sym (append-nil enc.word_spans);
        fits = λ h. h;
        stops = ground (arith, over);
      })
      | inr under ↦
          let more = encode_loop-Extended tok (suc index) words next in
          let room : length next.ids + 1 ≤ tok.max_len =
            ground (arith, under, length-append enc.ids piece_ids) in
          rw under (record {
            kept = (word, s, e) ∷ more.kept;
            left = more.left;
            split = ap (λ l. (word, s, e) ∷ l) more.split;
            ids = more.ids ∙ append_assoc enc.ids piece_ids (pieces_of tok more.kept);
            word_ids =
                more.word_ids
                ∙ append_assoc enc.word_ids indices (indices_of tok (suc index) more.kept);
            spans = more.spans ∙ append_assoc enc.word_spans ((s, e) ∷ []) (spans_of more.kept);
            fits = λ h. more.fits room;
            stops = more.stops;
          })
    ]

length-indices_of :
    (tok : WordPieceTokenizer) (index : ℕ) (words : Words)
    → length (indices_of tok index words) ≡ length (pieces_of tok words)
unfolding indices_of pieces_of
length-indices_of tok index [] = refl
length-indices_of tok index ((word, s, e) ∷ words) = omega (
  arith,
  length-append (replicate (length (wordpiece tok word)) (some index))
      (indices_of tok (suc index) words),
  length-replicate (length (wordpiece tok word)) (some index),
  length-append (wordpiece tok word) (pieces_of tok words),
  length-indices_of tok (suc index) words,
)

In-replicate : {A : Type 0} (n : ℕ) (x y : A) → In x (replicate n y) → x ≡ y
In-replicate zero x y m = elim m [ ]
In-replicate (suc n) x y (here q) = q
In-replicate (suc n) x y (there m) = In-replicate n x y m

some_value : {a b : ℕ} → some a ≡ some b → a ≡ b
some_value q = cc q

indices_of-range :
    (tok : WordPieceTokenizer) (index w : ℕ) (words : Words)
    → In (some w) (indices_of tok index words)
    → (index ≤ w) × (w < index + length (spans_of words))
unfolding indices_of
indices_of-range tok index w [] m = elim m [ ]
indices_of-range tok index w ((word, s, e) ∷ words) m =
    elim (In-append (replicate (length (wordpiece tok word)) (some index))
      (indices_of tok (suc index) words) m) [
        | inl a ↦
            let q =
              some_value (In-replicate (length (wordpiece tok word)) (some w) (some index) a) in
            (omega (arith, q), omega (arith, q))
        | inr b ↦
            let (p, q) = indices_of-range tok (suc index) w words b in
            (omega (arith, p), omega (arith, q))
      ]

-- What `encode` makes of the words of a text.
pub record Encoded (tok : WordPieceTokenizer) (words : Words) (r : Encoding) : Type 0 where
  pub kept : Words
  pub left : Words
  pub split : words ≡ kept ++ left
  pub ids : r.ids ≡ tok.cls_id ∷ (pieces_of tok kept ++ tok.sep_id ∷ [])
  pub word_ids : r.word_ids ≡ none ∷ (indices_of tok 0 kept ++ none ∷ [])
  pub spans : r.word_spans ≡ spans_of kept
  pub fits : 2 ≤ tok.max_len → length r.ids ≤ tok.max_len
  pub aligned : length r.word_ids ≡ length r.ids
  pub in_range : (w : ℕ) → In (some w) r.word_ids → w < length r.word_spans
  pub stops : DoesNotFit tok (length (tok.cls_id ∷ pieces_of tok kept)) left

not_some : {w : ℕ} → some w ≡ none → ⊥
not_some q = cc q

In-inside : {w : ℕ} (l : List (Option ℕ)) → In (some w) (none ∷ (l ++ none ∷ [])) → In (some w) l
In-inside l m = elim (In-split m) [
  | inl q ↦ absurd (not_some q)
  | inr k ↦ elim (In-append l (none ∷ []) k) [
    | inl a ↦ a
    | inr b ↦ elim (In-split b) [ inl q ↦ absurd (not_some q) | inr c ↦ elim c [ ] ]
  ]
]

close-Encoded :
    (tok : WordPieceTokenizer) (words : Words) (r : Encoding)
    → Extended tok 0 words
        (record { ids = tok.cls_id ∷ []; word_ids = none ∷ []; word_spans = [] })
        r
    → Encoded tok words (close tok r)
unfolding close
close-Encoded tok words r x =
    let ids = ap (λ l. l ++ tok.sep_id ∷ []) x.ids in
    let word_ids = ap (λ l. l ++ none ∷ []) x.word_ids in
    let len = ap (λ l. length l) x.ids in
    record {
      kept = x.kept;
      left = x.left;
      split = x.split;
      ids = ids;
      word_ids = word_ids;
      spans = x.spans;
      fits = λ h. omega (arith, x.fits h, length-append r.ids (tok.sep_id ∷ []));
      aligned = omega (
        arith,
        length-append r.ids (tok.sep_id ∷ []),
        length-append r.word_ids (none ∷ []),
        ap (λ l. length l) x.word_ids,
        len,
        length-indices_of tok 0 x.kept,
      );
      in_range = λ w m.
          let inside =
            In-inside (indices_of tok 0 x.kept) (subst (λ l. In (some w) l) word_ids m) in
          omega (arith, (indices_of-range tok 0 w x.kept inside).1, ap (λ l. length l) x.spans);
      stops = subst (λ n. DoesNotFit tok n x.left) len x.stops;
    }

-- An encoding is [CLS], the pieces of the text's first words and [SEP], with each piece's word and
-- each word's span beside. A word's pieces are kept together: the words go in whole up to the first
-- that does not fit. The encoding is no longer than `max_len` if that is at least 2, and each word
-- index is that of a span.
pub encode-Encoded :
    (uni : Unicode) (tok : WordPieceTokenizer) (text : Text)
    → Encoded tok (basic_tokens uni tok text) (encode uni tok text)
unfolding encode
encode-Encoded uni tok text =
    close-Encoded tok (basic_tokens uni tok text) _
      (encode_loop-Extended tok 0 (basic_tokens uni tok text) _)
