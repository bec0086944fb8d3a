-- ===== src/Release/Installed.antt =====
-- services/enrich/main.py, watch_models: what it takes to swap the classifier, with writes between its
-- reads.
use pi_news_aggregator.Prelude.{
  ℕ, ◌≡◌, refl, Bool, true, false, ◌&&◌, not, ◌==◌, nat_eq, list_eq, ==_true, Bool-cases,
  Option-cases, inl, inr, ◌⊎◌, some, [], ◌∷◌, Text, nonempty,
}
use pi_news_aggregator.Bus.{Bytes}
use package.pi_news_aggregator.Release.{
  Bucket, Watcher, get_model, model_revision, stored_version, install, same_rev, tick,
}

-- The version names the model, or there is none.
abbrev pub Names : (Bytes → Text) → Text → Bytes → Type 0
Names sha256 version model = (version ≡ []) ⊎ (version ≡ sha256 model)

named :
    (sha256 : Bytes → Text) (version : Text) (model : Bytes)
    → (nonempty version && not (version == sha256 model)) ≡ false
    → Names sha256 version model
named sha256 [] model h = inl refl
named sha256 (c ∷ version) model h = elim (Bool-cases ((c ∷ version) == sha256 model)) [
  | inl t ↦ inr (==_true (c ∷ version) (sha256 model) t)
  | inr f ↦ cc (rw f at h)
]

module _ {F : Type 0} (sha256 : Bytes → Text) (loads : Bytes → Bool) where
  -- A swap in one round.
  pub record Swapped (at_rev at_model at_meta : Bucket F) (w w' : Watcher) : Type 0 where
    pub model : Bytes
    pub rev : ℕ
    pub seen : model_revision at_rev ≡ some rev
    pub fresh : same_rev rev w.last_rev ≡ false
    pub read : get_model at_model ≡ some model
    pub named : Names sha256 (stored_version sha256 loads at_meta.meta) model
    pub loaded : loads model ≡ true
    pub swapped : w' ≡ record { serving = some model; last_rev = some rev }

  -- Whatever is written between its three reads, a round of the watcher leaves the classifier as it is
  -- or swaps in the model that it read: then the revision is not the last one, the model loads and runs,
  -- and the metadata that it read names the model's digest or no version.
  pub tick-Swapped :
      (at_rev at_model at_meta : Bucket F) (w : Watcher)
      → (tick sha256 loads at_rev at_model at_meta w ≡ w)
        ⊎ Swapped at_rev at_model at_meta w (tick sha256 loads at_rev at_model at_meta w)
  unfolding tick install
  tick-Swapped at_rev at_model at_meta w = elim (Option-cases (model_revision at_rev)) [
    | inl q ↦ inl (rw (q, tick) refl)
    | inr (rev, q) ↦ elim (Bool-cases (same_rev rev w.last_rev)) [
      | inl t ↦ inl (rw (q, tick) (rw t refl))
      | inr f ↦ elim (Option-cases (get_model at_model)) [
        | inl p ↦ inl (rw (q, tick) (rw f (rw p refl)))
        | inr (model, p) ↦
            elim (Bool-cases (
              nonempty (stored_version sha256 loads at_meta.meta)
              && not (stored_version sha256 loads at_meta.meta == sha256 model))) [
                | inl m ↦ inl (rw (q, tick) (rw f (rw p (rw m refl))))
                | inr n ↦ elim (Bool-cases (loads model)) [
                  | inr g ↦ inl (rw (q, tick) (rw f (rw p (rw n (rw g refl)))))
                  | inl l ↦ inr (record {
                    model = model;
                    rev = rev;
                    seen = q;
                    fresh = f;
                    read = p;
                    named = named sha256 (stored_version sha256 loads at_meta.meta) model n;
                    loaded = l;
                    swapped = rw (q, tick) (rw f (rw p (rw n (rw l refl))));
                  })
                ]
              ]
      ]
    ]
  ]
