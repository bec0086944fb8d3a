-- ===== src/Tokenize.antt =====
-- libs/tokenize/wordpiece.py. Unicode's categories and normal forms and str.lower are parameters.
pub mod Pieces
pub mod Spans
pub mod Encoded
use pi_news_aggregator.Prelude.{
  ℕ, zero, suc, ◌+◌, Bool, true, false, ◌&&◌, ◌||◌, leb, ltb, Option, none, some, List, [], ◌∷◌,
  ◌++◌, map, Text, codes, Dict, get, length, take, drop, ◌>>=◌, if◌then◌else◌, list_eq, nat_eq,
  longest_of, replicate,
}

-- unicodedata, and the methods of `str` that depend on it.
pub record Unicode : Type 0 where
  -- category(ch).startswith("C"), == "Zs", .startswith("P") and == "Mn"
  pub category_c : ℕ → Bool
  pub category_zs : ℕ → Bool
  pub category_p : ℕ → Bool
  pub category_mn : ℕ → Bool
  pub normalize_nfd : Text → Text
  pub lower : Text → Text

pub record Encoding : Type 0 where
  pub ids : List ℕ
  pub word_ids : List (Option ℕ)
  pub word_spans : List (ℕ × ℕ)

pub record WordPieceTokenizer : Type 0 where
  pub vocab : Dict Text ℕ
  pub do_lower_case : Bool
  pub strip_accents : Bool
  pub max_len : ℕ
  pub cls_id : ℕ
  pub sep_id : ℕ
  pub pad_id : ℕ
  pub unk_id : ℕ

-- __init__: `none` is a KeyError.
unfoldable pub make_tokenizer : Dict Text ℕ → Bool → Option Bool → ℕ → Option WordPieceTokenizer
unfolding get
make_tokenizer vocab do_lower_case strip_accents max_len = do
  cls_id ← get (codes "[CLS]") vocab
  sep_id ← get (codes "[SEP]") vocab
  unk_id ← get (codes "[UNK]") vocab
  some (record {
    vocab = vocab;
    do_lower_case = do_lower_case;
    strip_accents = elim strip_accents [ none ↦ do_lower_case | some strip ↦ strip ];
    max_len = max_len;
    cls_id = cls_id;
    sep_id = sep_id;
    pad_id = elim (get (codes "[PAD]") vocab) [ none ↦ 0 | some pad ↦ pad ];
    unk_id = unk_id;
  })

abbrev pub between : ℕ → ℕ → ℕ → Bool
between low high cp = leb low cp && leb cp high

-- _MAX_CHARS_PER_WORD
abbrev pub max_chars_per_word : ℕ
max_chars_per_word = 100

unfoldable pub is_cjk : ℕ → Bool
is_cjk cp =
    between 0x4E00 0x9FFF cp
    || (between 0x3400 0x4DBF cp
        || (between 0x20000 0x2A6DF cp
            || (between 0x2A700 0x2B73F cp
                || (between 0x2B740 0x2B81F cp
                    || (between 0x2B820 0x2CEAF cp
                        || (between 0xF900 0xFAFF cp || between 0x2F800 0x2FA1F cp))))))

module _ (uni : Unicode) where
  -- "\t", "\n" and "\r" are no control characters.
  unfoldable pub is_control : ℕ → Bool
  is_control ch = if between 9 10 ch || between 13 13 ch then false else uni.category_c ch

  unfoldable pub is_whitespace : ℕ → Bool
  is_whitespace ch =
      if between 32 32 ch || (between 9 10 ch || between 13 13 ch) then true else uni.category_zs ch

  unfoldable pub is_punctuation : ℕ → Bool
  is_punctuation cp =
      if between 33 47 cp || (between 58 64 cp || (between 91 96 cp || between 123 126 cp))
      then true
      else uni.category_p cp

  unfoldable pub is_blank : ℕ → Bool
  unfolding is_whitespace is_control
  is_blank ch = is_whitespace ch || is_control ch

  unfoldable pub is_single : ℕ → Bool
  unfolding is_punctuation is_cjk
  is_single ch = is_punctuation ch || is_cjk ch

  unfoldable pub drop_marks : Text → Text
  drop_marks [] = []
  drop_marks (c ∷ cs) = if uni.category_mn c then drop_marks cs else c ∷ drop_marks cs

  unfoldable pub normalize : WordPieceTokenizer → Text → Text
  unfolding drop_marks
  normalize tok token =
      let lowered = if tok.do_lower_case then uni.lower token else token in
      if tok.strip_accents then drop_marks (uni.normalize_nfd lowered) else lowered

  -- The inner `while` loop: how many characters of a word come next.
  unfoldable pub run_length : Text → ℕ
  run_length [] = 0
  run_length (c ∷ cs) =
      let rest = run_length cs in if is_blank c || is_single c then 0 else suc rest

  abbrev pub Word : Type 0
  Word = Text × ℕ × ℕ

  -- The outer `while` loop, at the position `i` with the characters from there on. The fuel is
  -- their number.
  unfoldable pub basic_loop : WordPieceTokenizer → ℕ → ℕ → Text → List Word
  basic_loop tok fuel i [] = []
  basic_loop tok zero i (ch ∷ cs) = []
  basic_loop tok (suc fuel) i (ch ∷ cs) =
      let after = basic_loop tok fuel (suc i) cs in
      let n = run_length (ch ∷ cs) in
      let after_run = basic_loop tok fuel (i + n) (drop n (ch ∷ cs)) in
      if is_blank ch
      then after
      else if is_single ch
      then (normalize tok (ch ∷ []), i, suc i) ∷ after
      else (normalize tok (take n (ch ∷ cs)), i, i + n) ∷ after_run

  unfoldable pub basic_tokens : WordPieceTokenizer → Text → List Word
  unfolding basic_loop
  basic_tokens tok text = basic_loop tok (length text) 0 text

-- What the vocabulary has for the next `n` characters; `inside` is start > 0.
unfoldable pub piece_at : Dict Text ℕ → Bool → Text → ℕ → Option ℕ
piece_at vocab inside rest n = get (if inside then codes "##" ++ take n rest else take n rest) vocab

-- The outer `while` loop on the characters from `start` on: `none` is the return of [UNK]. The fuel
-- is their number.
unfoldable pub piece_loop : Dict Text ℕ → ℕ → Bool → Text → Option (List ℕ)
piece_loop vocab fuel inside [] = some []
piece_loop vocab zero inside (c ∷ cs) = none
piece_loop vocab (suc fuel) inside (c ∷ cs) =
    elim (longest_of (piece_at vocab inside (c ∷ cs)) (length (c ∷ cs))) [
      | none ↦ none
      | some (cur, n) ↦ do out ← piece_loop vocab fuel true (drop n (c ∷ cs)); some (cur ∷ out)
    ]

unfoldable pub wordpiece : WordPieceTokenizer → Text → List ℕ
unfolding piece_loop
wordpiece tok token =
    if ltb max_chars_per_word (length token)
    then tok.unk_id ∷ []
    else elim (piece_loop tok.vocab (length token) false token) [
      | none ↦ tok.unk_id ∷ []
      | some out ↦ out
    ]

-- The loop of `encode`, at the word `word_index`.
unfoldable pub encode_loop : WordPieceTokenizer → ℕ → List (Text × ℕ × ℕ) → Encoding → Encoding
encode_loop tok word_index [] enc = enc
encode_loop tok word_index ((word, s, e) ∷ words) enc =
    let piece_ids = wordpiece tok word in
    -- len(ids) - 1 + len(piece_ids) > max_len - 2, with no subtraction
    let rest = encode_loop tok (suc word_index) words (record {
      ids = enc.ids ++ piece_ids;
      word_ids = enc.word_ids ++ replicate (length piece_ids) (some word_index);
      word_spans = enc.word_spans ++ (s, e) ∷ [];
    }) in
    if ltb tok.max_len (length enc.ids + length piece_ids + 1) then enc else rest

unfoldable pub close : WordPieceTokenizer → Encoding → Encoding
close tok enc = record {
  ids = enc.ids ++ tok.sep_id ∷ [];
  word_ids = enc.word_ids ++ none ∷ [];
  word_spans = enc.word_spans;
}

unfoldable pub encode : Unicode → WordPieceTokenizer → Text → Encoding
unfolding encode_loop close
encode uni tok text = close tok (
    encode_loop tok 0 (basic_tokens uni tok text)
      (record { ids = tok.cls_id ∷ []; word_ids = none ∷ []; word_spans = [] }))
