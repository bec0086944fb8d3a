-- ===== src/Feeds/Capped.antt =====
-- The normalizers of the polled JSON feeds: the fields that they cut.
use pi_news_aggregator.Prelude.{
  ◌≤◌, ◌≡◌, refl, true, le→leb, Option, List, [], ◌∷◌, ◌++◌, Text, codes, take, length, length-take,
  arith, Bool-cases, Option-cases, inl, inr, nonempty, list_eq, nat_eq,
}
use pi_news_aggregator.Floats.{Float}
use pi_news_aggregator.Schema.{Geo}
use package.pi_news_aggregator.Feeds.{
  Json, string, array, object, null, boolean, integer, number, Runtime, str, short_entities, truthy,
  text_of, or_else,
}
use package.pi_news_aggregator.Feeds.Usgs
use package.pi_news_aggregator.Feeds.Noaa
use package.pi_news_aggregator.Feeds.Gdacs
use package.pi_news_aggregator.Feeds.Gdelt
use package.pi_news_aggregator.Feeds.Fitting.{
  one_of, Good, skipped, made, Every-bind, Every-needs, length-http_urls, length-take_le,
  length-prefixed,
}

module _ (fl : Float) (rt : Runtime fl) where
  pub gdelt-Good : (x : Json fl.F) → Good (Gdelt.draft fl rt x)
  unfolding Gdelt.draft Gdelt.draft_with short_entities
  gdelt-Good x = Every-bind _ _ (λ url u. Every-bind _ _ (λ title v. Every-needs _ _ (
      Every-bind _ _ (λ language a. Every-bind _ _ (λ seendate b. Every-bind _ _ (λ domain c.
        made (record {
          source = omega arith;
          lang = one_of _ 8 (codes "en") (codes "und") (omega arith) (omega arith);
          text = length-take_le 8192 8192 (str fl rt title) (omega arith);
          entities = omega arith;
          short = refl;
          urls = omega arith;
          author = length-take_le 256 256 (str fl rt domain) (omega arith);
          parent = refl;
          hash = length-prefixed (codes "gdelt:") 40 256 (rt.sha256 (text_of url)) (omega arith);
          raw = length-take_le 256 256 (str fl rt domain) (omega arith);
        })))))))

  -- An entity of a feed: its text is cut.
  places-short :
      (x : Json fl.F) (geo : Option (Geo fl.F))
      → (length (Usgs.places fl rt x geo) ≤ 128) × (short_entities (Usgs.places fl rt x geo) ≡ true)
  unfolding Usgs.places short_entities
  places-short x geo = elim (Bool-cases (truthy fl x)) [
    | inl t ↦
        rw t
          (omega arith, rw (le→leb _ _ (length-take_le 256 256 (str fl rt x) (omega arith))) refl)
    | inr f ↦ rw f (omega arith, refl)
  ]

  usgs_urls : (x : Json fl.F) → length (Usgs.urls_of fl rt x) ≤ 32
  unfolding Usgs.urls_of
  usgs_urls x = elim (Bool-cases (nonempty (text_of x))) [
    | inl t ↦ rw t (omega arith)
    | inr f ↦ rw f (omega arith)
  ]

  usgs_draft :
      (feature props coords place' : Json fl.F) (text : Text)
      → Good (Usgs.draft_with fl rt feature props coords place' text)
  unfolding Usgs.draft_with
  usgs_draft feature props coords place' text = Every-bind _ _ (λ geo a. Every-bind _ _ (λ url b.
      Every-bind _ _ (λ fid c. Every-bind _ _ (λ time d. Every-bind _ _ (λ ts e. made (record {
        source = omega arith;
        lang = omega arith;
        text = length-take_le 8192 8192 text (omega arith);
        entities = (places-short place' geo).0;
        short = (places-short place' geo).1;
        urls = usgs_urls url;
        author = omega arith;
        parent = refl;
        hash = length-take_le 256 256 (str fl rt fid) (omega arith);
        raw = length-take_le 256 256 (str fl rt fid) (omega arith);
      }))))))

  pub usgs-Good : (x : Json fl.F) → Good (Usgs.draft fl rt x)
  unfolding Usgs.draft
  usgs-Good x = Every-bind _ _ (λ props a. Every-bind _ _ (λ geom b. Every-bind _ _ (λ coords c.
      Every-bind _ _ (λ title d. Every-bind _ _ (λ place' e. Every-bind _ _ (λ mag f.
        elim (Option-cases (Usgs.headline fl rt title place' mag)) [
          | inl q ↦ rw q skipped
          | inr (text, q) ↦ rw q (usgs_draft x props coords place' text)
        ]))))))

  countries-short :
      (geo : Option (Geo fl.F)) (parts : List Text)
      → (length (Gdacs.countries fl rt geo parts) ≤ length parts)
        × (short_entities (Gdacs.countries fl rt geo parts) ≡ true)
  unfolding Gdacs.countries short_entities
  countries-short geo [] = (omega arith, refl)
  countries-short geo (part ∷ parts) =
      let rest = countries-short geo parts in
      elim (Bool-cases (nonempty (rt.strip part))) [
        | inl t ↦ rw t (
          omega (arith, rest.0),
          rw (le→leb _ _ (length-take_le 256 256 (rt.strip part) (omega arith)), rest.1) refl,
        )
        | inr f ↦ rw f (omega (arith, rest.0), rest.1)
      ]

  gdacs_places :
      (x : Json fl.F) (geo : Option (Geo fl.F))
      → (length (Gdacs.places fl rt x geo) ≤ 128)
        × (short_entities (Gdacs.places fl rt x geo) ≡ true)
  unfolding Gdacs.places short_entities
  gdacs_places (string t) geo =
      let parts = take 16 (rt.split 44 t) in
      let k = countries-short geo parts in (omega (arith, k.0, length-take 16 (rt.split 44 t)), k.1)
  gdacs_places null geo = (omega arith, refl)
  gdacs_places (boolean b) geo = (omega arith, refl)
  gdacs_places (integer z) geo = (omega arith, refl)
  gdacs_places (number f) geo = (omega arith, refl)
  gdacs_places (array xs) geo = (omega arith, refl)
  gdacs_places (object ms) geo = (omega arith, refl)

  gdacs_draft :
      (feature props : Json fl.F) (text : Text) → Good (Gdacs.draft_with fl rt feature props text)
  unfolding Gdacs.draft_with
  gdacs_draft feature props text = Every-bind _ _ (λ geometry a. Every-bind _ _ (λ geo b.
      Every-bind _ _ (λ country c. Every-bind _ _ (λ url_map d. Every-bind _ _ (λ report e.
        Every-bind _ _ (λ etype f. Every-bind _ _ (λ eid g. Every-bind _ _ (λ fromdate h.
          Every-needs _ _ (
            made (record {
              source = omega arith;
              lang = omega arith;
              text = length-take_le 8192 8192 text (omega arith);
              entities = (gdacs_places country geo).0;
              short = (gdacs_places country geo).1;
              urls = length-http_urls report;
              author = omega arith;
              parent = refl;
              hash =
                  length-take_le 256 256
                    (codes "gdacs:" ++ str fl rt etype ++ codes ":" ++ str fl rt eid) (omega arith);
              raw =
                  length-take_le 256 256
                    (codes "gdacs:" ++ str fl rt etype ++ codes ":" ++ str fl rt eid) (omega arith);
            }))))))))))

  pub gdacs-Good : (x : Json fl.F) → Good (Gdacs.draft fl rt x)
  unfolding Gdacs.draft
  gdacs-Good x = Every-bind _ _ (λ props a. Every-bind _ _ (λ description b.
      Every-bind _ _
        (λ name c. Every-bind _ _ (λ alert d. Every-needs _ _ (gdacs_draft x props _)))))

  areas-short :
      (parts : List Text)
      → (length (Noaa.areas fl rt parts) ≤ length parts)
        × (short_entities (Noaa.areas fl rt parts) ≡ true)
  unfolding Noaa.areas short_entities
  areas-short [] = (omega arith, refl)
  areas-short (part ∷ parts) =
      let rest = areas-short parts in
      elim (Bool-cases (nonempty (rt.strip part))) [
        | inl t ↦ rw t (
          omega (arith, rest.0),
          rw (le→leb _ _ (length-take_le 256 256 (rt.strip part) (omega arith)), rest.1) refl,
        )
        | inr f ↦ rw f (omega (arith, rest.0), rest.1)
      ]

  noaa_places :
      (x : Json fl.F)
      → (length (Noaa.places fl rt x) ≤ 128) × (short_entities (Noaa.places fl rt x) ≡ true)
  unfolding Noaa.places short_entities
  noaa_places (string t) =
      let k = areas-short (take 32 (rt.split 59 t)) in
      (omega (arith, k.0, length-take 32 (rt.split 59 t)), k.1)
  noaa_places null = (omega arith, refl)
  noaa_places (boolean b) = (omega arith, refl)
  noaa_places (integer z) = (omega arith, refl)
  noaa_places (number f) = (omega arith, refl)
  noaa_places (array xs) = (omega arith, refl)
  noaa_places (object ms) = (omega arith, refl)

  noaa_draft :
      (feature props area : Json fl.F) (text : Text)
      → Good (Noaa.draft_with fl rt feature props area text)
  unfolding Noaa.draft_with Noaa.urn_of
  noaa_draft feature props area text = Every-bind _ _ (λ geometry a. Every-bind _ _ (λ geo b.
      Every-bind _ _ (λ fid c. Every-bind _ _ (λ own d. Every-bind _ _ (λ onset e.
        Every-bind _ _ (λ effective f. Every-bind _ _ (λ sent g. Every-needs _ _ (
          made (record {
            source = omega arith;
            lang = omega arith;
            text = length-take_le 8192 8192 text (omega arith);
            entities = (noaa_places area).0;
            short = (noaa_places area).1;
            urls = length-http_urls fid;
            author = omega arith;
            parent = refl;
            hash =
                length-take_le 256 256 (str fl rt (or_else fl own (or_else fl fid (string []))))
                  (omega arith);
            raw =
                length-take_le 256 256 (str fl rt (or_else fl own (or_else fl fid (string []))))
                  (omega arith);
          })))))))))

  pub noaa-Good : (x : Json fl.F) → Good (Noaa.draft fl rt x)
  unfolding Noaa.draft
  noaa-Good x = Every-bind _ _ (λ props a. Every-bind _ _ (λ status b. Every-bind _ _ (λ headline c.
      Every-bind _ _ (λ event d. Every-bind _ _ (λ area e.
        Every-needs _ _ (elim (Option-cases (Noaa.headline_of fl rt headline event area)) [
          | inl q ↦ rw q skipped
          | inr (text, q) ↦ rw q (noaa_draft x props area text)
        ]))))))
