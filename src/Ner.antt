-- ===== src/Ner.antt =====
-- libs/ner/onnx_ner.py: from the predicted tags of a text's words to its entities. The model's
-- predictions and str.strip are parameters.
pub mod Decoded
use pi_news_aggregator.Prelude.{
  ℕ, zero, suc, ◌+◌, ◌-◌, Bool, true, false, ◌&&◌, ◌||◌, not, Option, none, some, List, [], ◌∷◌,
  ◌++◌, Text, codes, Dict, get, put, ◌==◌, contains, nonempty, length, take, drop, if◌then◌else◌,
  list_eq, nat_eq,
}
use pi_news_aggregator.Schema.{Entity, EntityType, person, org, place, other, EntityKey, key_eq}

-- _TAG_TO_TYPE.get(tag, EntityType.OTHER)
unfoldable pub tag_to_type : Text → EntityType
tag_to_type tag =
    if tag == codes "PER"
    then person
    else if tag == codes "ORG"
    then org
    else if tag == codes "LOC"
    then place
    else other

-- label.partition("-"), without the separator
unfoldable pub partition_dash : Text → Text × Text
partition_dash [] = ([], [])
partition_dash (c ∷ cs) =
    let (before, after) = partition_dash cs in if c == b'-' then ([], cs) else (c ∷ before, after)

-- text[start:end]
unfoldable pub slice : Text → ℕ → ℕ → Text
slice text start end = take (end - start) (drop start text)

-- The local variables of `_decode_bio`.
pub record Decoding (F : Type 0) : Type 0 where
  pub cur_type : Option Text
  pub cur_start : ℕ
  pub cur_end : ℕ
  pub seen : List EntityKey
  pub entities : List (Entity F)

-- self._labels[cid] if 0 <= cid < len(self._labels) else "O"; a class id is no number below 0
unfoldable pub label_of : List Text → ℕ → Text
label_of [] cid = codes "O"
label_of (l ∷ ls) zero = l
label_of (l ∷ ls) (suc cid) = label_of ls cid

-- One label for each word: that of its first token. `pred` goes beside `word_ids`, and a token
-- without a prediction is an IndexError (`none`).
unfoldable pub word_labels :
    List Text → List (Option ℕ) → List ℕ → Dict ℕ Text → Option (Dict ℕ Text)
unfolding label_of
word_labels labels [] pred word_label = some word_label
word_labels labels (none ∷ word_ids) pred word_label =
    word_labels labels word_ids (drop 1 pred) word_label
word_labels labels (some wid ∷ word_ids) [] word_label =
    let rest = word_labels labels word_ids [] word_label in
    elim (get wid word_label) [ none ↦ none | some l ↦ rest ]
word_labels labels (some wid ∷ word_ids) (cid ∷ pred) word_label =
    let rest = word_labels labels word_ids pred word_label in
    let rest' = word_labels labels word_ids pred (put wid (label_of labels cid) word_label) in
    elim (get wid word_label) [ none ↦ rest' | some l ↦ rest ]

-- tag == cur_type
unfoldable pub continues : Text → Option Text → Bool
continues tag none = false
continues tag (some t) = tag == t

-- word_label.get(wid, "O")
unfoldable pub label_for : Dict ℕ Text → ℕ → Text
label_for word_label wid = elim (get wid word_label) [ none ↦ codes "O" | some l ↦ l ]

module _ {F : Type 0} (strip : Text → Text) (text : Text) where
  -- The end of `flush`, for an open span.
  unfoldable pub close_span : Text → Decoding F → Decoding F
  close_span cur_type s =
      let span_text = take 256 (strip (slice text s.cur_start s.cur_end)) in
      let etype = tag_to_type cur_type in
      if nonempty span_text && not (contains (span_text, etype) s.seen)
      then record s {
        cur_type = none;
        seen = (span_text, etype) ∷ s.seen;
        entities = s.entities ++ record { text = span_text; type = etype; geo = none } ∷ [];
      }
      else record s { cur_type = none }

  unfoldable pub flush : Decoding F → Decoding F
  flush s = elim s.cur_type [ none ↦ s | some tag ↦ close_span tag s ]

  -- The body of the loop over the words, with the word's label and span.
  unfoldable pub decode_step : Text → ℕ × ℕ → Decoding F → Decoding F
  decode_step label (start, end) s =
      let prefix = (partition_dash label).0 in
      let tag = (partition_dash label).1 in
      let begins = prefix == codes "B" || (prefix == codes "I" && not (continues tag s.cur_type)) in
      if begins
      then record (flush s) { cur_type = some tag; cur_start = start; cur_end = end }
      else if prefix == codes "I" && continues tag s.cur_type
      then record s { cur_end = end }
      else flush s

  -- The loop, from the word `wid` on.
  unfoldable pub decode_loop : Dict ℕ Text → ℕ → List (ℕ × ℕ) → Decoding F → Decoding F
  unfolding decode_step
  decode_loop word_label wid [] s = s
  decode_loop word_label wid (span ∷ word_spans) s =
      decode_loop word_label (suc wid) word_spans (decode_step (label_for word_label wid) span s)

  unfoldable pub decode_bio : Dict ℕ Text → List (ℕ × ℕ) → List (Entity F)
  unfolding decode_loop flush
  decode_bio word_label word_spans =
      (flush (
        decode_loop word_label 0 word_spans (record {
          cur_type = none;
          cur_start = 0;
          cur_end = 0;
          seen = [];
          entities = [];
        }))).entities
