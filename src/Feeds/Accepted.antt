-- ===== src/Feeds/Accepted.antt =====
-- What the schema makes of the items that the normalizers build.
use pi_news_aggregator.Prelude.{
  ℕ, ◌≤◌, ◌≡◌, refl, Bool, true, false, ◌&&◌, leb, le→leb, Option, none, some, Text, length, arith,
  Bool-cases, inl, inr, if◌then◌else◌,
}
use pi_news_aggregator.Floats.{Float}
use pi_news_aggregator.Schema.{Item, SourceClass, item_fits, max_ref_len}
use package.pi_news_aggregator.Feeds.{◌>>=◌, Json, Runtime, validate, short_entities, item_encodes}
use package.pi_news_aggregator.Feeds.Usgs
use package.pi_news_aggregator.Feeds.Noaa
use package.pi_news_aggregator.Feeds.Gdacs
use package.pi_news_aggregator.Feeds.Gdelt
use package.pi_news_aggregator.Feeds.Press
use package.pi_news_aggregator.Feeds.Mastodon
use package.pi_news_aggregator.Feeds.Wikipedia
use package.pi_news_aggregator.Feeds.Bluesky
use package.pi_news_aggregator.Feeds.Fitting.{
  Every, raised, skipped, made, refuse_surrogates, validate-Good, Every-bind, Every-needs,
  length-http_urls, length-take_le,
}
use package.pi_news_aggregator.Feeds.Capped.{usgs-Good, noaa-Good, gdacs-Good, gdelt-Good}
use package.pi_news_aggregator.Feeds.Streamed.{mastodon-Good, wikipedia-Good}
use package.pi_news_aggregator.Feeds.Posts.{bluesky-Good}

module _ (fl : Float) (rt : Runtime fl) where
  -- Whatever a record of USGS, NOAA, GDACS, GDELT, Mastodon, Wikipedia or Bluesky holds, validation
  -- refuses the item that the normalizer builds from it in one case only, a text with a lone
  -- surrogate in a field that has a cap, and else takes it as it is: each field is cut to its cap, and the
  -- entities and urls are few enough.
  pub normalizers_accepted :
      (instance' : Text) (x : Json fl.F)
      → (Usgs.normalize fl rt x ≡ (Usgs.draft fl rt x >>= refuse_surrogates))
        × (Noaa.normalize fl rt x ≡ (Noaa.draft fl rt x >>= refuse_surrogates))
        × (Gdacs.normalize fl rt x ≡ (Gdacs.draft fl rt x >>= refuse_surrogates))
        × (Gdelt.normalize fl rt x ≡ (Gdelt.draft fl rt x >>= refuse_surrogates))
        × (Mastodon.normalize fl rt instance' x
            ≡ (Mastodon.draft fl rt instance' x >>= refuse_surrogates))
        × (Wikipedia.normalize fl rt x ≡ (Wikipedia.draft fl rt x >>= refuse_surrogates))
        × (Bluesky.normalize fl rt x ≡ (Bluesky.draft fl rt x >>= refuse_surrogates))
  unfolding Usgs.normalize Noaa.normalize Gdacs.normalize Gdelt.normalize Mastodon.normalize
      Wikipedia.normalize Bluesky.normalize
  normalizers_accepted instance' x = (
    validate-Good (usgs-Good fl rt x),
    validate-Good (noaa-Good fl rt x),
    validate-Good (gdacs-Good fl rt x),
    validate-Good (gdelt-Good fl rt x),
    validate-Good (mastodon-Good fl rt instance' x),
    validate-Good (wikipedia-Good fl rt x),
    validate-Good (bluesky-Good fl rt x),
  )

  -- A press item of a source is within every cap but those of the two fields that hold its reference.
  record Referred (i : Item fl.F) : Type 0 where
    caps : item_fits i ≡ leb (length i.content_hash) max_ref_len
    entities : short_entities i.entities ≡ true

  -- An exception for a reference that is too long, or a capped text with a lone surrogate
  abbrev pub cap_ref : Option (Item fl.F) → Option (Option (Item fl.F))
  cap_ref none = some none
  cap_ref (some i) =
      if leb (length i.content_hash) max_ref_len && item_encodes i then some (some i) else none

  validate-Referred :
      {o : Option (Option (Item fl.F))} → Every Referred o → (o >>= validate) ≡ (o >>= cap_ref)
  unfolding validate ◌>>=◌
  validate-Referred raised = refl
  validate-Referred skipped = refl
  validate-Referred (made {i = i} r) = elim (Bool-cases (leb (length i.content_hash) max_ref_len)) [
    | inl t ↦ rw (r.caps, t, r.entities) refl
    | inr f ↦ rw (r.caps, f) refl
  ]

  and_same : (b : Bool) → (b && b) ≡ b
  and_same true = refl
  and_same false = refl

  draft-Referred :
      (source : Text) (c : SourceClass) (title ref : Text) (ts : Option ℕ) (link : Json fl.F)
      → length source ≤ 64
      → Referred (Press.draft_with fl rt source c title ref ts link)
  unfolding Press.draft_with item_fits short_entities
  draft-Referred source c title ref ts link h = record {
    caps =
        rw
          (
            le→leb _ _ h,
            le→leb _ _ (length-take_le 8192 8192 (rt.strip title) (omega arith)),
            le→leb _ _ (length-http_urls link),
          )
          (and_same (leb (length ref) 256));
    entities = refl;
  }

  -- The press normalizer, for a source whose name is within its cap, raises in one more case than the
  -- steps before validation and a lone surrogate: it does not cut the reference, so a guid of more than
  -- 256 characters is an exception. Nothing else that it builds is refused.
  pub rss_to_item_refuses :
      (source : Text) (c : SourceClass) (max_age_days : Option ℕ) (x : Json fl.F)
      → length source ≤ 64
      → Press.rss_to_item fl rt source c max_age_days x
        ≡ (Press.draft fl rt source c max_age_days x >>= cap_ref)
  unfolding Press.rss_to_item Press.draft
  rss_to_item_refuses source c max_age_days x h = validate-Referred (
      Every-bind _ _ (λ title a. Every-bind _ _ (λ key b. Every-bind _ _ (λ pubdate d.
        Every-bind _ _ (λ link e. Every-needs _ _ (made (draft-Referred source c _ _ _ link h)))))))
