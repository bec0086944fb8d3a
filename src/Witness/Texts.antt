-- ===== src/Witness/Texts.antt =====
-- The gazetteer, the tokenizer, the NER decoder and the wire credits on short texts.
use pi_news_aggregator.Prelude.{
  none, ℕ, Bool, leb, ◌&&◌, List, [], ◌∷◌, map, Text, codes, Dict, Distinct, All, nat_eq, list_eq,
}
use pi_news_aggregator.Floats.Fixed.{fixed}
use pi_news_aggregator.Schema.{entity_key, key_eq}
use pi_news_aggregator.Gazetteer.{match, words}
use pi_news_aggregator.Gazetteer.Longest.{Scan, match-Scan}
use pi_news_aggregator.Tokenize.{basic_tokens, encode}
use pi_news_aggregator.Tokenize.Encoded.{Encoded, encode-Encoded}
use pi_news_aggregator.Ner.{decode_bio}
use pi_news_aggregator.Ner.Decoded.{FromText, decode_bio-FromText}
use pi_news_aggregator.Trust.Match.{MatchCandidate, Trigonometry, fold_entities, find_primary_match}
use pi_news_aggregator.Trust.Match.Aligned.{Matched, find_primary_match-Matched}
use pi_news_aggregator.Trust.Wire.{wire_ref}
use pi_news_aggregator.Trust.Wire.Priority.{Credits, wire_ref-Credits}
use package.pi_news_aggregator.Witness.Samples.{lower_same, small_gazetteer, ascii, small_tokenizer}

abbrev letter : ℕ → Bool
letter c = leb b'a' c && leb c b'z'

match-Scan_example :
    Scan fixed small_gazetteer
      (words (codes "in new york now"))
      (match fixed lower_same small_gazetteer (codes "in new york now"))
match-Scan_example = match-Scan fixed lower_same small_gazetteer (codes "in new york now")

encode-Encoded_example :
    Encoded small_tokenizer
      (basic_tokens ascii small_tokenizer (codes "hot news!"))
      (encode ascii small_tokenizer (codes "hot news!"))
encode-Encoded_example = encode-Encoded ascii small_tokenizer (codes "hot news!")

abbrev two_labels : Dict ℕ Text
two_labels = (0, codes "B-LOC") ∷ (1, codes "I-LOC") ∷ []

abbrev two_spans : List (ℕ × ℕ)
two_spans = (0, 3) ∷ (4, 8) ∷ []

decode_bio-FromText_example :
    Distinct
      (map entity_key (decode_bio {F = fixed.F} lower_same (codes "New York") two_labels two_spans))
    × All
        (FromText (fixed.F) lower_same (codes "New York") two_spans)
        (decode_bio {F = fixed.F} lower_same (codes "New York") two_labels two_spans)
decode_bio-FromText_example =
    decode_bio-FromText (fixed.F) lower_same (codes "New York") two_spans two_labels

wire_ref-Credits_example :
    Credits letter
      (codes "LONDON (Reuters) - Talks")
      (wire_ref letter (codes "LONDON (Reuters) - Talks"))
wire_ref-Credits_example = wire_ref-Credits letter (codes "LONDON (Reuters) - Talks")

-- Functions that are not those of geometry.
abbrev pub flat : Trigonometry (fixed.F)
flat = record { radians = λ x. x; sin = λ x. x; cos = λ x. x; asin = λ x. x; sqrt = λ x. x }

abbrev records : List (MatchCandidate (fixed.F))
records =
    record { item_id = 4; entity_texts = codes "rome" ∷ []; lat = none; lon = none }
    ∷ record { item_id = 7; entity_texts = codes "paris" ∷ []; lat = none; lon = none }
    ∷ []

find_primary_match-Matched_example :
    Matched fixed flat
      (fixed.dec 100 0)
      (fold_entities lower_same (codes "paris" ∷ []))
      none
      none
      records
      (find_primary_match fixed flat lower_same
        (fixed.dec 100 0)
        (codes "paris" ∷ [])
        none
        none
        records)
find_primary_match-Matched_example =
    find_primary_match-Matched fixed flat lower_same (fixed.dec 100 0) (codes "paris" ∷ []) none
      none records
