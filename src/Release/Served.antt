-- ===== src/Release/Served.antt =====
-- From a cycle of the retrainer to the classifier in service.
use pi_news_aggregator.Prelude.{
  some_inj, ℕ, suc, ◌≤◌, ◌≡◌, refl, ap, ◌∙◌, subst, Bool, true, false, ◌&&◌, nat_eq, list_eq,
  ==_refl, Bool-cases, Option-cases, inl, inr, ◌⊎◌, Option, none, some, List, [], nonempty, length,
  arith,
}
use pi_news_aggregator.Floats.{Float}
use pi_news_aggregator.Bus.{Bytes}
use pi_news_aggregator.Retrain.{LabeledRow, class_counts, time_split, meets_floors, should_promote}
use pi_news_aggregator.Retrain.Gate.{NotWorse, should_promote_iff}
use package.pi_news_aggregator.Release.{
  Training, Meta, Bucket, Retrainer, Verdict, Watcher, get_model, model_revision, publish_model,
  put_meta, put_model, incumbent_f1, judged, decide, publish_candidate, conclude, cycle, install,
  same_rev, tick,
}

no_candidate : (o : Option Bytes) (c : Bytes) → none ≡ o → o ≡ some c → ⊥
no_candidate o c p q = cc (p, q)

and_false : (b : Bool) → (b && false) ≡ false
and_false true = refl
and_false false = refl

module _ (fl : Float) (tr : Training fl) where
  -- Why a candidate may be published.
  pub record Approved (rows : List LabeledRow) (b : Bucket fl.F) (candidate : Bytes) : Type 0 where
    pub trained : tr.train_model (time_split (tr.rounded (length rows)) rows).0 ≡ some candidate
    pub cand_f1 : fl.F
    pub evaluated :
        tr.evaluate candidate (time_split (tr.rounded (length rows)) rows).1 ≡ some cand_f1
    pub cur_f1 : Option fl.F
    pub compared :
        incumbent_f1 fl tr (get_model b) (time_split (tr.rounded (length rows)) rows).1
        ≡ some cur_f1
    pub enough : tr.min_rows ≤ length rows
    pub not_worse : NotWorse fl cand_f1 cur_f1

  from_judged :
      (rows : List LabeledRow) (b : Bucket fl.F) (candidate c : Bytes) (cand_f1 : fl.F)
      (cur_f1 : Option fl.F)
      → tr.train_model (time_split (tr.rounded (length rows)) rows).0 ≡ some candidate
      → tr.evaluate candidate (time_split (tr.rounded (length rows)) rows).1 ≡ some cand_f1
      → incumbent_f1 fl tr (get_model b) (time_split (tr.rounded (length rows)) rows).1
        ≡ some cur_f1
      → (judged fl tr rows candidate cand_f1 cur_f1).candidate ≡ some c
      → Approved rows b c
  unfolding judged
  from_judged rows b candidate c cand_f1 cur_f1 p q r h =
      elim (Bool-cases
        (should_promote fl tr.min_rows tr.min_per_class cand_f1 cur_f1 (length rows)
          (class_counts rows [])).0) [
            | inl t ↦
                let gate =
                  (should_promote_iff fl tr.min_rows tr.min_per_class cand_f1 cur_f1 (length rows)
                      (class_counts rows [])).0
                    t in
                subst (Approved rows b) (some_inj (rw t at h)) (record {
                  trained = p;
                  cand_f1 = cand_f1;
                  evaluated = q;
                  cur_f1 = cur_f1;
                  compared = r;
                  enough = gate.0;
                  not_worse = gate.3;
                })
            | inr f ↦ cc (rw f at h)
          ]

  decide-Approved :
      (rows : List LabeledRow) (b : Bucket fl.F) (v : Verdict fl.F) (c : Bytes)
      → decide fl tr rows b ≡ some v
      → v.candidate ≡ some c
      → Approved rows b c
  unfolding decide
  decide-Approved rows b v c h k =
      elim (Bool-cases
        (meets_floors tr.min_rows tr.min_per_class (length rows) (class_counts rows [])).0) [
          | inr f ↦ absurd (
              no_candidate v.candidate c
                (ap (λ (x : Verdict fl.F). x.candidate) (some_inj (rw f at h))) k)
          | inl t ↦
              elim (Option-cases (tr.train_model (time_split (tr.rounded (length rows)) rows).0)) [
                | inl p ↦ cc (rw p at (rw t at h))
                | inr (candidate, p) ↦
                    elim (Option-cases
                      (tr.evaluate candidate (time_split (tr.rounded (length rows)) rows).1)) [
                        | inl q ↦ cc (rw q at (rw p at (rw t at h)))
                        | inr (cand_f1, q) ↦
                            elim (Option-cases (
                              incumbent_f1 fl tr (get_model b)
                                (time_split (tr.rounded (length rows)) rows).1)) [
                                  | inl r ↦ cc (rw r at (rw q at (rw p at (rw t at h))))
                                  | inr (cur_f1, r) ↦
                                      from_judged rows b candidate c cand_f1 cur_f1 p q r (
                                        ap (λ (x : Verdict fl.F). x.candidate)
                                          (some_inj (rw r at (rw q at (rw p at (rw t at h)))))
                                        ∙ k)
                                ]
                      ]
              ]
        ]

  module _ (loads : Bytes → Bool) where
    -- A published candidate that serves after the next round of the watcher.
    pub record Served (rows : List LabeledRow) (before after : Bucket fl.F) (w : Watcher)
        : Type 0 where
      pub candidate : Bytes
      pub approved : Approved rows before candidate
      pub stored : get_model after ≡ some candidate
      pub served :
          tick tr.sha256 loads after after after w
          ≡ record { serving = some candidate; last_rev = some after.revision }

    other_rev :
        (rev : ℕ) (o : Option ℕ)
        → ((r : ℕ) → o ≡ some r → r ≤ rev)
        → same_rev (suc (suc rev)) o ≡ false
    other_rev rev none h = refl
    other_rev rev (some r) h = ground (arith, h r refl)

    picked_up :
        (model : Bytes) (meta : Meta fl.F) (b : Bucket fl.F) (w : Watcher)
        → meta.version ≡ tr.sha256 model
        → loads model ≡ true
        → ((r : ℕ) → w.last_rev ≡ some r → r ≤ b.revision)
        → tick tr.sha256 loads
            (publish_model model meta b)
            (publish_model model meta b)
            (publish_model model meta b)
            w
          ≡ record { serving = some model; last_rev = some (suc (suc b.revision)) }
    unfolding tick install publish_model put_meta put_model get_model model_revision
    picked_up model meta b w q l h =
        rw
          (
            other_rev b.revision w.last_rev h,
            q,
            ==_refl (tr.sha256 model),
            l,
            and_false (nonempty (tr.sha256 model)),
          )
          refl

    -- If the bucket's revisions are ahead of the watcher, and a candidate that is trained on the older
    -- part of the rows loads, then a cycle of the retrainer either leaves the bucket as it is, or has
    -- published a candidate that the gate approved, with enough rows and an F1 on the newer part that
    -- is not below that of the incumbent; and the watcher's next round, with no write in between, swaps
    -- this candidate in.
    pub cycle_then_tick :
        (now : ℕ) (rows : List LabeledRow) (s : Retrainer fl.F) (w : Watcher)
        → ((c : Bytes)
            → tr.train_model (time_split (tr.rounded (length rows)) rows).0 ≡ some c
            → loads c ≡ true)
        → ((r : ℕ) → w.last_rev ≡ some r → r ≤ s.bucket.revision)
        → ((cycle fl tr now rows s).1.bucket ≡ s.bucket)
          ⊎ Served rows s.bucket (cycle fl tr now rows s).1.bucket w
    unfolding cycle conclude publish_candidate
    cycle_then_tick now rows s w ok h = elim (Option-cases (decide fl tr rows s.bucket)) [
      | inl q ↦ inl (rw (q, cycle) refl)
      | inr (v, q) ↦ elim (Option-cases v.candidate) [
        | inl p ↦ inl (rw (q, cycle) (rw (p, publish_candidate) refl))
        | inr (c, p) ↦
            let a = decide-Approved rows s.bucket v c q p in
            inr (
              rw (q, cycle)
                (rw (p, publish_candidate)
                  (record {
                    candidate = c;
                    approved = a;
                    stored = unfold publish_model put_meta put_model get_model in refl;
                    served = picked_up c _ s.bucket w refl (ok c a.trained) h;
                  })))
      ]
    ]
