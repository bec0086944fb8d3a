-- ===== src/Enrich/Inference/Outcomes.antt =====
-- services/enrich/main.py, Inference.handle: what the counters and the broker show of each outcome.
use pi_news_aggregator.Prelude.{
  ◌≢◌, some, ℕ, suc, ◌+◌, Bool, true, false, ◌≡◌, refl, sym, ap, ◌∙◌, inl, inr, List, [], ◌∷◌, ◌++◌,
  Text, codes, Bool-cases, Option-cases, list_eq, nat_eq, arith, append_assoc, append-nil,
}
use pi_news_aggregator.Floats.{Float}
use pi_news_aggregator.Schema.{Item, Entity, EnrichedItem, merge_entities}
use pi_news_aggregator.Gazetteer.{match}
use pi_news_aggregator.Dedup.{Deduper}
use pi_news_aggregator.Bus.{Reply, unacked, Bytes, Published, Log}
use pi_news_aggregator.Bus.Scope.{
  Scoped, Publishes, sending, unknown, lost, oversized, outside, publish-Publishes,
}
use pi_news_aggregator.Enrich.Governor.{admit, explore}
use pi_news_aggregator.Enrich.Filter.{CheapFilter, count_mentions, tally, is_duplicate, relevance}
use package.pi_news_aggregator.Enrich.Inference.{
  Parts, Inference, Outcome, duplicate, shed, published, raised, Outside, enrich, settle, emit,
  gate, after_dedup, after_tally, handle,
}

module _ (fl : Float) (ded : Deduper) (parts : Parts fl) where
  -- The counters and the broker are as before.
  pub record Same (s s' : Inference fl ded) : Type 0 where
    pub published : s'.published ≡ s.published
    pub shed : s'.shed ≡ s.shed
    pub log : s'.log ≡ s.log

  -- The message for an item that has its gazetteer tags.
  pub record Carries (item : Item fl.F) (entry : Text × Bytes) : Type 0 where
    pub exploration : Bool
    pub enriched : EnrichedItem fl.F
    pub made : enrich fl ded parts item exploration ≡ some enriched
    pub carried : entry ≡ (codes "enriched." ++ item.source, parts.to_json enriched)
    pub scoped : Scoped parts.publisher entry

  -- What a call changed, by its outcome; `M` is what its message must be.
  pub data Handled (M : Text × Bytes → Type 0) (reply : Reply) (s : Inference fl ded)
      : Outcome × Inference fl ded → Type 0 where
    dropped : {s' : Inference fl ded} → Same s s' → Handled M reply s (duplicate, s')
    failed : {s' : Inference fl ded} → Same s s' → Handled M reply s (raised, s')
    unsure :
        {s' : Inference fl ded} (entry : Text × Bytes)
        → reply ≡ unacked
        → s'.published ≡ s.published
        → s'.shed ≡ s.shed
        → s'.log ≡ s.log ++ entry ∷ []
        → M entry
        → Handled M reply s (raised, s')
    shedding :
        {s' : Inference fl ded}
        → s'.published ≡ s.published
        → s'.shed ≡ suc s.shed
        → s'.log ≡ s.log
        → Handled M reply s (shed, s')
    publishing :
        {s' : Inference fl ded} (entry : Text × Bytes)
        → s'.published ≡ suc s.published
        → s'.shed ≡ s.shed
        → s'.log ≡ s.log ++ entry ∷ []
        → M entry
        → Handled M reply s (published, s')

  settle-Handled :
      {M : Text × Bytes → Type 0} {reply : Reply} {subject : Text} {payload : Bytes}
      {after : Published × Log} (s : Inference fl ded)
      → (Scoped parts.publisher (subject, payload) → M (subject, payload))
      → Publishes parts.publisher reply subject payload s.log after
      → Handled M reply s (settle fl ded parts after s)
  unfolding settle
  settle-Handled {subject = subject} {payload = payload} s m (sending scoped a) =
      publishing (subject, payload) refl refl refl (m scoped)
  settle-Handled {subject = subject} {payload = payload} s m (unknown scoped a) =
      unsure (subject, payload) a refl refl refl (m scoped)
  settle-Handled s m (lost scoped a) = failed (record { published = refl; shed = refl; log = refl })
  settle-Handled s m (oversized p b) = failed (record { published = refl; shed = refl; log = refl })
  settle-Handled s m (outside p) = failed (record { published = refl; shed = refl; log = refl })

  emit-Handled :
      (reply : Reply) (item : Item fl.F) (exploration : Bool) (s : Inference fl ded)
      → Handled (Carries item) reply s (emit fl ded parts reply item exploration s)
  unfolding emit
  emit-Handled reply item exploration s =
      elim (Option-cases (enrich fl ded parts item exploration)) [
        | inl q ↦ rw (q, emit) (failed (record { published = refl; shed = refl; log = refl }))
        | inr (enriched, q) ↦
            rw (q, emit)
              (settle-Handled s
                (λ scoped. record {
                  exploration = exploration;
                  enriched = enriched;
                  made = q;
                  carried = refl;
                  scoped = scoped;
                })
                (publish-Publishes parts.publisher reply (codes "enriched." ++ item.source)
                  (parts.to_json enriched) s.log))
      ]

  -- A state with the same counters and the same broker.
  Handled-from :
      {M : Text × Bytes → Type 0} {reply : Reply} {s t : Inference fl ded}
      {after : Outcome × Inference fl ded}
      → Same s t
      → Handled M reply t after
      → Handled M reply s after
  Handled-from q (dropped r) = dropped (record {
    published = r.published ∙ q.published;
    shed = r.shed ∙ q.shed;
    log = r.log ∙ q.log;
  })
  Handled-from q (failed r) = failed (record {
    published = r.published ∙ q.published;
    shed = r.shed ∙ q.shed;
    log = r.log ∙ q.log;
  })
  Handled-from q (shedding a b c) = shedding (a ∙ q.published) (b ∙ ap suc q.shed) (c ∙ q.log)
  Handled-from q (unsure entry r a b c m) =
      unsure entry r (a ∙ q.published) (b ∙ q.shed) (c ∙ ap (λ l. l ++ entry ∷ []) q.log) m
  Handled-from q (publishing entry a b c scoped) =
      publishing entry (a ∙ ap suc q.published) (b ∙ q.shed) (c ∙ ap (λ l. l ++ entry ∷ []) q.log)
        scoped

  gate-Handled :
      (out : Outside fl.F) (item : Item fl.F) (s : Inference fl ded)
      → Handled (Carries item) out.reply s (gate fl ded parts out item s)
  unfolding gate
  gate-Handled out item s =
      let decided =
        admit fl parts.cfg (relevance fl ded parts.score item) item.source_class out.now s.gov in
      let gov = decided.1 in
      elim (Bool-cases decided.0) [
        | inl t ↦ rw t (
            Handled-from (record { published = refl; shed = refl; log = refl })
              (emit-Handled out.reply item false (record s { gov = gov })))
        | inr f ↦ rw f (elim (Bool-cases (explore fl parts.cfg out.random gov)) [
          | inl e ↦ rw e (
              Handled-from (record { published = refl; shed = refl; log = refl })
                (emit-Handled out.reply item true
                  (record s { gov = gov; explored = suc s.explored })))
          | inr n ↦ rw n (shedding refl refl refl)
        ])
      ]

  -- The message for an item: its tags, then what NER and the embedder make of it.
  pub record Message (item : Item fl.F) (entry : Text × Bytes) : Type 0 where
    pub hits : List (Entity fl.F)
    pub tagged : match fl parts.lower parts.gaz item.text ≡ some hits
    pub carries : Carries (merge_entities item hits) entry

  Handled-map :
      {M N : Text × Bytes → Type 0} {reply : Reply} {s : Inference fl ded}
      {after : Outcome × Inference fl ded}
      → ((e : Text × Bytes) → M e → N e)
      → Handled M reply s after
      → Handled N reply s after
  Handled-map f (dropped r) = dropped r
  Handled-map f (failed r) = failed r
  Handled-map f (unsure entry r a b c m) = unsure entry r a b c (f entry m)
  Handled-map f (shedding a b c) = shedding a b c
  Handled-map f (publishing entry a b c m) = publishing entry a b c (f entry m)

  handle-Handled :
      (out : Outside fl.F) (item : Item fl.F) (s : Inference fl ded)
      → Handled (Message item) out.reply s (handle fl ded parts out item s)
  unfolding handle after_tally after_dedup tally
  handle-Handled out item s = elim (Option-cases (match fl parts.lower parts.gaz item.text)) [
    | inl q ↦ rw q (failed (record { published = refl; shed = refl; log = refl }))
    | inr (hits, q) ↦
        let item' = merge_entities item hits in
        let filter : CheapFilter ded = record {
          dedup = s.filter.dedup;
          mentions = count_mentions parts.casefold hits s.filter.mentions;
        } in
        rw q (elim (Bool-cases (is_duplicate fl ded item' filter).0) [
          | inl t ↦ rw t (dropped (record { published = refl; shed = refl; log = refl }))
          | inr f ↦ rw f (
              Handled-from (record { published = refl; shed = refl; log = refl })
                (Handled-map (λ e c. record { hits = hits; tagged = q; carries = c })
                  (gate-Handled out item'
                    (record s { filter = (is_duplicate fl ded item' filter).1 }))))
        ])
  ]

  -- Calls one after the other.
  unfoldable pub handle_all :
      List (Outside fl.F × Item fl.F) → Inference fl ded → List Outcome × Inference fl ded
  unfolding handle
  handle_all [] s = ([], s)
  handle_all ((out, item) ∷ calls) s =
      let (o, s') = handle fl ded parts out item s in
      let (os, s'') = handle_all calls s' in (o ∷ os, s'')

  unfoldable pub publications : List Outcome → ℕ
  publications [] = 0
  publications (published ∷ os) = suc (publications os)
  publications (_ ∷ os) = publications os

  unfoldable pub sheddings : List Outcome → ℕ
  sheddings [] = 0
  sheddings (shed ∷ os) = suc (sheddings os)
  sheddings (_ ∷ os) = sheddings os

  -- What calls put on the broker, in order: a message for each publication, and one for a call that
  -- raised only because the acknowledgement was lost.
  pub data Trace : List (Outside fl.F × Item fl.F) → List Outcome → Log → Type 0 where
    quiet_end : Trace [] [] []
    silent :
        {calls : List (Outside fl.F × Item fl.F)} {os : List Outcome} {new : Log}
        (out : Outside fl.F) (item : Item fl.F) (o : Outcome)
        → o ≢ published
        → Trace calls os new
        → Trace ((out, item) ∷ calls) (o ∷ os) new
    unsure_sent :
        {calls : List (Outside fl.F × Item fl.F)} {os : List Outcome} {new : Log}
        (out : Outside fl.F) (item : Item fl.F) (entry : Text × Bytes)
        → out.reply ≡ unacked
        → Message item entry
        → Trace calls os new
        → Trace ((out, item) ∷ calls) (raised ∷ os) (entry ∷ new)
    sent_one :
        {calls : List (Outside fl.F × Item fl.F)} {os : List Outcome} {new : Log}
        (out : Outside fl.F) (item : Item fl.F) (entry : Text × Bytes)
        → Message item entry
        → Trace calls os new
        → Trace ((out, item) ∷ calls) (published ∷ os) (entry ∷ new)

  pub record Accounted (calls : List (Outside fl.F × Item fl.F)) (s : Inference fl ded)
      (outcomes : List Outcome) (s' : Inference fl ded) : Type 0 where
    pub published_count : s'.published ≡ publications outcomes + s.published
    pub shed_count : s'.shed ≡ sheddings outcomes + s.shed
    pub new : Log
    pub log_grows : s'.log ≡ s.log ++ new
    pub trace : Trace calls outcomes new

  Accounted-cons :
      {s s'' : Inference fl ded} {after : Outcome × Inference fl ded} {os : List Outcome}
      {calls : List (Outside fl.F × Item fl.F)} (out : Outside fl.F) (item : Item fl.F)
      → Handled (Message item) out.reply s after
      → Accounted calls after.1 os s''
      → Accounted ((out, item) ∷ calls) s (after.0 ∷ os) s''
  unfolding publications sheddings
  Accounted-cons out item (dropped q) r = record {
    published_count = omega (arith, r.published_count, q.published);
    shed_count = omega (arith, r.shed_count, q.shed);
    new = r.new;
    log_grows = r.log_grows ∙ ap (λ l. l ++ r.new) q.log;
    trace = silent out item duplicate (λ e. cc e) r.trace;
  }
  Accounted-cons out item (failed q) r = record {
    published_count = omega (arith, r.published_count, q.published);
    shed_count = omega (arith, r.shed_count, q.shed);
    new = r.new;
    log_grows = r.log_grows ∙ ap (λ l. l ++ r.new) q.log;
    trace = silent out item raised (λ e. cc e) r.trace;
  }
  Accounted-cons out item (shedding a b c) r = record {
    published_count = omega (arith, r.published_count, a);
    shed_count = omega (arith, r.shed_count, b);
    new = r.new;
    log_grows = r.log_grows ∙ ap (λ l. l ++ r.new) c;
    trace = silent out item shed (λ e. cc e) r.trace;
  }
  Accounted-cons {s = s} out item (unsure entry u a b c m) r = record {
    published_count = omega (arith, r.published_count, a);
    shed_count = omega (arith, r.shed_count, b);
    new = entry ∷ r.new;
    log_grows = r.log_grows ∙ ap (λ l. l ++ r.new) c ∙ append_assoc s.log (entry ∷ []) r.new;
    trace = unsure_sent out item entry u m r.trace;
  }
  Accounted-cons {s = s} out item (publishing entry a b c m) r = record {
    published_count = omega (arith, r.published_count, a);
    shed_count = omega (arith, r.shed_count, b);
    new = entry ∷ r.new;
    log_grows = r.log_grows ∙ ap (λ l. l ++ r.new) c ∙ append_assoc s.log (entry ∷ []) r.new;
    trace = sent_one out item entry m r.trace;
  }

  -- Over any sequence of items, whatever the parts, the clock and the broker do: the counters
  -- `published` and `shed` grow by the calls that ended so. What the calls add to the broker is, in the
  -- order of the calls, one message for each that ended as published, and one for some of those that
  -- raised because the broker's acknowledgement was lost. The message of a call holds the item of that
  -- call with its gazetteer tags and its enrichment, under the subject of the item's source, within the
  -- publisher's prefix and cap. No other call adds one.
  pub handle_all-Accounted :
      (calls : List (Outside fl.F × Item fl.F)) (s : Inference fl ded)
      → Accounted calls s (handle_all calls s).0 (handle_all calls s).1
  unfolding handle_all publications sheddings
  handle_all-Accounted [] s = record {
    published_count = omega arith;
    shed_count = omega arith;
    new = [];
    log_grows = sym (append-nil s.log);
    trace = quiet_end;
  }
  handle_all-Accounted ((out, item) ∷ calls) s =
      Accounted-cons out item (handle-Handled out item s)
        (handle_all-Accounted calls (handle fl ded parts out item s).1)
