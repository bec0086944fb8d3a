-- ===== src/Ingest/Delivered.antt =====
-- services/ingest/runner.py, poll_once: what a poll leaves, record by record.
use pi_news_aggregator.Prelude.{
  ◌⊎◌, ℕ, suc, ◌+◌, ◌≡◌, refl, sym, ◌∙◌, inl, inr, none, some, List, [], ◌∷◌, ◌++◌, map, Text,
  length, In, here, In-append_left, In-append_right, Distinct, In-split, append-nil, append_assoc,
  list_eq, nat_eq, arith, subst,
}
use pi_news_aggregator.Bus.{ScopedPublisher, Bytes, Log, Reply, acked, unacked, unstored}
use pi_news_aggregator.Bus.Scope.{Scoped}
use package.pi_news_aggregator.Ingest.{item, skipped, failed, PollSource, Polled}

module _ {Raw : Type 0} (src : PollSource Raw) (pub' : ScopedPublisher) (reply : Raw → Reply) where
  -- The message of the record is not stored: the publisher refuses it, or the broker does not store it.
  abbrev pub NotStored : Raw → Bytes → Type 0
  NotStored raw payload = (Scoped pub' (src.subject, payload) → ⊥) ⊎ (reply raw ≡ unstored)

  -- From the keys that were seen: the records of the feed whose message the broker acknowledged, and all
  -- messages that it stored, in the order of the feed. A record goes out unless its key was seen or the
  -- normalizer skips it; an exception of the normalizer or of publish ends the poll.
  pub data Trace : List Text → List Raw → List Raw → Log → Type 0 where
    over : {seen : List Text} → Trace seen [] [] []
    known :
        {raw : Raw} {seen : List Text} {raws out : List Raw} {new : Log}
        → In (src.dedup_key raw) seen
        → Trace seen raws out new
        → Trace seen (raw ∷ raws) out new
    skips :
        {raw : Raw} {seen : List Text} {raws out : List Raw} {new : Log}
        → src.normalize raw ≡ skipped
        → Trace (seen ++ src.dedup_key raw ∷ []) raws out new
        → Trace seen (raw ∷ raws) out new
    goes :
        {raw : Raw} {seen : List Text} {raws out : List Raw} {new : Log} (payload : Bytes)
        → src.normalize raw ≡ item payload
        → reply raw ≡ acked
        → Trace (seen ++ src.dedup_key raw ∷ []) raws out new
        → Trace seen (raw ∷ raws) (raw ∷ out) ((src.subject, payload) ∷ new)
    unsure :
        {raw : Raw} {seen : List Text} {raws : List Raw} (payload : Bytes)
        → src.normalize raw ≡ item payload
        → reply raw ≡ unacked
        → Trace seen (raw ∷ raws) [] ((src.subject, payload) ∷ [])
    refused :
        {raw : Raw} {seen : List Text} {raws : List Raw} (payload : Bytes)
        → src.normalize raw ≡ item payload
        → NotStored raw payload
        → Trace seen (raw ∷ raws) [] []
    fails :
        {raw : Raw} {seen : List Text} {raws : List Raw}
        → src.normalize raw ≡ failed
        → Trace seen (raw ∷ raws) [] []

  -- What a poll did with records, from the keys that were seen and the broker as it was.
  pub record Delivered (raws : List Raw) (published : ℕ) (seen : List Text) (log : Log) (r : Polled)
      : Type 0 where
    pub out : List Raw
    pub new : Log
    pub log_grows : r.log ≡ log ++ new
    pub trace : Trace seen raws out new
    pub distinct : Distinct (map src.dedup_key out)
    pub fresh : (k : Text) → In k (map src.dedup_key out) → In k seen → ⊥
    pub remembered : (k : Text) → In k (map src.dedup_key out) → In k r.seen
    pub kept : (k : Text) → In k seen → In k r.seen
    pub counted : (n : ℕ) → r.published ≡ some n → n ≡ length out + published
    pub finished :
        (n : ℕ) → r.published ≡ some n → (raw : Raw) → In raw raws → In (src.dedup_key raw) r.seen

  none-some : (n : ℕ) → none ≡ some n → ⊥
  none-some n q = cc q

  some_value : (a b : ℕ) → some a ≡ some b → b ≡ a
  some_value a b q = cc q

  -- An exception ends the poll.
  pub stopped :
      (raws : List Raw) (published : ℕ) (seen : List Text) (log new : Log)
      → Trace seen raws [] new
      → Delivered raws published seen log
          (record { published = none; seen = seen; log = log ++ new })
  stopped raws published seen log new t = record {
    out = [];
    new = new;
    log_grows = refl;
    trace = t;
    distinct = tt;
    fresh = λ k m. elim m [ ];
    remembered = λ k m. elim m [ ];
    kept = λ k m. m;
    counted = λ n q. absurd (none-some n q);
    finished = λ n q. absurd (none-some n q);
  }

  pub stopped_silent :
      (raws : List Raw) (published : ℕ) (seen : List Text) (log : Log)
      → Trace seen raws [] []
      → Delivered raws published seen log (record { published = none; seen = seen; log = log })
  stopped_silent raws published seen log t =
      subst
        (λ l. Delivered raws published seen log (record { published = none; seen = seen; log = l }))
        (append-nil log) (stopped raws published seen log [] t)

  pub known_key :
      {raw : Raw} {raws : List Raw} {published : ℕ} {seen : List Text} {log : Log} {r : Polled}
      → In (src.dedup_key raw) seen
      → Delivered raws published seen log r
      → Delivered (raw ∷ raws) published seen log r
  known_key m d = record {
    out = d.out;
    new = d.new;
    log_grows = d.log_grows;
    trace = known m d.trace;
    distinct = d.distinct;
    fresh = d.fresh;
    remembered = d.remembered;
    kept = d.kept;
    counted = d.counted;
    finished = λ n r x k. elim (In-split k) [
      | inl e ↦ rw e (d.kept (src.dedup_key _) m)
      | inr t ↦ d.finished n r x t
    ];
  }

  pub skipping :
      {raw : Raw} {raws : List Raw} {published : ℕ} {seen : List Text} {log : Log} {r : Polled}
      → src.normalize raw ≡ skipped
      → Delivered raws published (seen ++ src.dedup_key raw ∷ []) log r
      → Delivered (raw ∷ raws) published seen log r
  skipping {raw = raw} {seen = seen} q d = record {
    out = d.out;
    new = d.new;
    log_grows = d.log_grows;
    trace = skips q d.trace;
    distinct = d.distinct;
    fresh = λ k m s. d.fresh k m (In-append_left seen (src.dedup_key raw ∷ []) s);
    remembered = d.remembered;
    kept = λ k m. d.kept k (In-append_left seen (src.dedup_key raw ∷ []) m);
    counted = d.counted;
    finished = λ n r x k. elim (In-split k) [
      | inl e ↦
          rw e
            (d.kept (src.dedup_key raw) (In-append_right seen (src.dedup_key raw ∷ []) (here refl)))
      | inr t ↦ d.finished n r x t
    ];
  }

  pub publishing :
      {raw : Raw} {raws : List Raw} {published : ℕ} {seen : List Text} {log : Log} {r : Polled}
      (payload : Bytes)
      → src.normalize raw ≡ item payload
      → reply raw ≡ acked
      → (In (src.dedup_key raw) seen → ⊥)
      → Delivered raws
          (suc published)
          (seen ++ src.dedup_key raw ∷ [])
          (log ++ (src.subject, payload) ∷ [])
          r
      → Delivered (raw ∷ raws) published seen log r
  publishing {raw = raw} {seen = seen} {log = log} payload made a unseen d =
      let key = src.dedup_key raw in
      let last : In key (seen ++ key ∷ []) = In-append_right seen (key ∷ []) (here refl) in
      record {
        out = raw ∷ d.out;
        new = (src.subject, payload) ∷ d.new;
        log_grows = d.log_grows ∙ append_assoc log ((src.subject, payload) ∷ []) d.new;
        trace = goes payload made a d.trace;
        distinct = (λ m. d.fresh key m last, d.distinct);
        fresh = λ k m s. elim (In-split m) [
          | inl e ↦ unseen (subst (λ j. In j seen) e s)
          | inr t ↦ d.fresh k t (In-append_left seen (key ∷ []) s)
        ];
        remembered =
            λ k m. elim (In-split m) [ inl e ↦ rw e (d.kept key last) | inr t ↦ d.remembered k t ];
        kept = λ k m. d.kept k (In-append_left seen (key ∷ []) m);
        counted = λ n q. omega (arith, d.counted n q);
        finished = λ n r x k. elim (In-split k) [
          | inl e ↦ rw e (d.kept key last)
          | inr t ↦ d.finished n r x t
        ];
      }

  -- No record is left.
  pub ended :
      (published : ℕ) (seen : List Text) (log : Log)
      → Delivered [] published seen log
          (record { published = some published; seen = seen; log = log })
  ended published seen log = record {
    out = [];
    new = [];
    log_grows = sym (append-nil log);
    trace = over;
    distinct = tt;
    fresh = λ k m. elim m [ ];
    remembered = λ k m. elim m [ ];
    kept = λ k m. m;
    counted = λ n q. omega (arith, some_value published n q);
    finished = λ n q raw m. elim m [ ];
  }
