-- ===== src/Ner/Decoded.antt =====
-- libs/ner/onnx_ner.py, _decode_bio: the entities that it makes.
use pi_news_aggregator.Prelude.{
  ℕ, suc, ◌≤◌, ◌≡◌, refl, sym, ap, inl, inr, Bool, true, false, ◌&&◌, ◌||◌, not, Option, none, some,
  List, [], ◌∷◌, ◌++◌, map, Text, codes, Dict, ◌==◌, contains, In→contains, nonempty, length, take,
  length-take, list_eq, nat_eq, In, here, there, In-append, In-one, Distinct, Distinct-snoc, All,
  All-append, Bool-cases, Option-cases, and_true→both, arith, subst,
}
use pi_news_aggregator.Schema.{Entity, EntityKey, entity_key, key_eq}
use package.pi_news_aggregator.Ner.{
  Decoding, slice, tag_to_type, partition_dash, close_span, flush, continues, decode_step,
  label_for, decode_loop, decode_bio,
}

-- From the start of one word to the end of one.
abbrev pub Spanned : List (ℕ × ℕ) → ℕ → ℕ → Type 0
Spanned spans start end = (e : ℕ) × (s : ℕ) × In (start, e) spans × In (s, end) spans

none_not_some : (tag : Text) → none ≡ some tag → ⊥
none_not_some tag q = cc q

none_some : {P : Type 0} (tag : Text) → none ≡ some tag → P
none_some tag q = absurd (none_not_some tag q)

true_false : {P : Type 0} → false ≡ true → P
true_false q = absurd (cc q)

continues-some : (tag : Text) (o : Option Text) → continues tag o ≡ true → (t : Text) × (o ≡ some t)
unfolding continues
continues-some tag none h = true_false h
continues-some tag (some t) h = (t, refl)

module _ (F : Type 0) (strip : Text → Text) (text : Text) (spans : List (ℕ × ℕ)) where
  -- What an entity shows of the text.
  pub record FromText (ent : Entity F) : Type 0 where
    pub start : ℕ
    pub end : ℕ
    pub spanned : Spanned spans start end
    pub shown : ent.text ≡ take 256 (strip (slice text start end))
    pub shows : nonempty ent.text ≡ true
    pub short : length ent.text ≤ 256

  record Good (s : Decoding F) : Type 0 where
    open_span : (tag : Text) → s.cur_type ≡ some tag → Spanned spans s.cur_start s.cur_end
    distinct : Distinct (map entity_key s.entities)
    known : (k : EntityKey) → In k (map entity_key s.entities) → In k s.seen
    shown : All FromText s.entities

  map-snoc :
      (l : List (Entity F)) (ent : Entity F)
      → map entity_key (l ++ ent ∷ []) ≡ map entity_key l ++ entity_key ent ∷ []
  map-snoc [] ent = refl
  map-snoc (e ∷ l) ent = ap (λ k. entity_key e ∷ k) (map-snoc l ent)

  close_span-Good :
      (tag : Text) (s : Decoding F)
      → Good s
      → s.cur_type ≡ some tag
      → Good (close_span strip text tag s)
  unfolding close_span
  close_span-Good tag s g q =
      let span_text = take 256 (strip (slice text s.cur_start s.cur_end)) in
      let key : EntityKey = (span_text, tag_to_type tag) in
      elim (Bool-cases (nonempty span_text && not (contains key s.seen))) [
        | inr f ↦ rw f (record {
          open_span = λ t p. none_some t p;
          distinct = g.distinct;
          known = g.known;
          shown = g.shown;
        })
        | inl t ↦
            let (some_text, new) =
              and_true→both (nonempty span_text) (not (contains key s.seen)) t in
            let ent : Entity F = record { text = span_text; type = tag_to_type tag; geo = none } in
            let fresh : In key (map entity_key s.entities) → ⊥ =
              λ m. clash (contains key s.seen) new (In→contains key s.seen (g.known key m)) in
            rw t (record {
              open_span = λ t p. none_some t p;
              distinct =
                  subst Distinct (sym (map-snoc s.entities ent))
                    (Distinct-snoc (map entity_key s.entities) key g.distinct fresh);
              known = λ k m.
                  elim (In-append (map entity_key s.entities) (key ∷ [])
                    (subst (λ l. In k l) (map-snoc s.entities ent) m)) [
                      | inl a ↦ there (g.known k a)
                      | inr b ↦ here (In-one b)
                    ];
              shown = All-append FromText s.entities (ent ∷ []) g.shown (
                record {
                  start = s.cur_start;
                  end = s.cur_end;
                  spanned = g.open_span tag q;
                  shown = refl;
                  shows = some_text;
                  short = omega (arith, length-take 256 (strip (slice text s.cur_start s.cur_end)));
                },
                tt,
              );
            })
      ]
    where
      clash : (b : Bool) → not b ≡ true → b ≡ true → ⊥
      clash b p r = cc (ap not r, p)

  flush-Good : (s : Decoding F) → Good s → Good (flush strip text s)
  unfolding flush
  flush-Good s g = elim (Option-cases s.cur_type) [
    | inl q ↦ rw (q, flush) g
    | inr (tag, q) ↦ rw (q, flush) (close_span-Good tag s g q)
  ]

  decode_step-Good :
      (label : Text) (span : ℕ × ℕ) (s : Decoding F)
      → In span spans
      → Good s
      → Good (decode_step strip text label span s)
  unfolding decode_step
  decode_step-Good label (start, end) s m g =
      let prefix = (partition_dash label).0 in
      let tag = (partition_dash label).1 in
      let flushed = flush-Good s g in
      elim (Bool-cases
        (prefix == codes "B" || (prefix == codes "I" && not (continues tag s.cur_type)))) [
          | inl t ↦ rw t (record {
            open_span = λ t p. (end, start, m, m);
            distinct = flushed.distinct;
            known = flushed.known;
            shown = flushed.shown;
          })
          | inr f ↦ rw f (elim (Bool-cases (prefix == codes "I" && continues tag s.cur_type)) [
            | inl t ↦
                let (cur, q) =
                  continues-some tag s.cur_type
                    (and_true→both (prefix == codes "I") (continues tag s.cur_type) t).1 in
                let (e, b, first, last) = g.open_span cur q in
                rw t (record {
                  open_span = λ t p. (e, start, first, m);
                  distinct = g.distinct;
                  known = g.known;
                  shown = g.shown;
                })
            | inr n ↦ rw n flushed
          ])
        ]

  decode_loop-Good :
      (word_label : Dict ℕ Text) (wid : ℕ) (rest : List (ℕ × ℕ)) (s : Decoding F)
      → ((span : ℕ × ℕ) → In span rest → In span spans)
      → Good s
      → Good (decode_loop strip text word_label wid rest s)
  unfolding decode_loop
  decode_loop-Good word_label wid [] s into g = g
  decode_loop-Good word_label wid (span ∷ rest) s into g =
      decode_loop-Good word_label (suc wid) rest
        (decode_step strip text (label_for word_label wid) span s) (λ p m. into p (there m))
        (decode_step-Good (label_for word_label wid) span s (into span (here refl)) g)

  -- Whatever the model predicts: no two entities of a text have the same text and type, and each
  -- shows what stands in the text from the start of one word to the end of one, stripped, cut at
  -- 256 characters and never empty.
  pub decode_bio-FromText :
      (word_label : Dict ℕ Text)
      → let entities : List (Entity F) = decode_bio {F = F} strip text word_label spans in
        Distinct (map entity_key entities) × All FromText entities
  unfolding decode_bio
  decode_bio-FromText word_label =
      let start : Decoding F = record {
        cur_type = none;
        cur_start = 0;
        cur_end = 0;
        seen = [];
        entities = [];
      } in
      let g0 : Good start = record {
        open_span = λ t p. none_some t p;
        distinct = tt;
        known = λ k m. elim m [ ];
        shown = tt;
      } in
      let g : Good (flush strip text (decode_loop strip text word_label 0 spans start)) =
        flush-Good (decode_loop strip text word_label 0 spans start)
          (decode_loop-Good word_label 0 spans start (λ p m. m) g0) in
      (g.distinct, g.shown)
