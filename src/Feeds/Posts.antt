-- ===== src/Feeds/Posts.antt =====
-- The normalizer of Bluesky: the fields that it cuts, and the loop over the urls of a post.
use pi_news_aggregator.Prelude.{
  ◌+◌, ◌≤◌, ◌<◌, ◌≡◌, refl, subst, Bool, true, false, ◌&&◌, not, leb_false→lt, le→leb, leb, Option,
  none, some, List, [], ◌∷◌, Text, codes, take, length, length-append, arith, Bool-cases,
  Option-cases, inl, inr, nonempty, contains, starts_with, if◌then◌else◌, list_eq, nat_eq,
}
use pi_news_aggregator.Floats.{Float}
use pi_news_aggregator.Schema.{max_len_opt, max_ref_len, max_urls}
use package.pi_news_aggregator.Feeds.{
  ◌>>=◌, Json, string, array, object, null, boolean, integer, number, Runtime, str, short_entities,
  text_of, elements, is_text, or_else, get, no_element,
}
use package.pi_news_aggregator.Feeds.Bluesky
use package.pi_news_aggregator.Feeds.Fitting.{
  one_of, Good, made, Every-bind, Every-needs, length-take_le, length-prefixed,
}

module _ (fl : Float) (rt : Runtime fl) where
  length-with_uri :
      (uri : Json fl.F) (urls : List Text)
      → length (Bluesky.with_uri fl rt uri urls) ≤ length urls + 1
  unfolding Bluesky.with_uri
  length-with_uri uri urls =
      elim (Bool-cases
        (starts_with (text_of uri) (codes "http") && not (contains (text_of uri) urls))) [
          | inl t ↦ rw t (omega (arith, length-append urls (take 2048 (text_of uri) ∷ [])))
          | inr f ↦ rw f (omega arith)
        ]

  -- The urls are within the cap, and below it unless the loop is left.
  abbrev Bounded : Option (Bool × List Text) → Type 0
  Bounded none = Unit
  Bounded (some (true, urls)) = length urls ≤ 32
  Bounded (some (false, urls)) = length urls < 32

  abbrev AtMost : Option (List Text) → Type 0
  AtMost none = Unit
  AtMost (some urls) = length urls ≤ 32

  feature_urls-Bounded :
      (feats : List (Json fl.F)) (urls : List Text)
      → length urls < 32
      → Bounded (Bluesky.feature_urls fl rt feats urls)
  unfolding Bluesky.feature_urls ◌>>=◌
  feature_urls-Bounded [] urls h = h
  feature_urls-Bounded (feat ∷ feats) urls h = elim (Option-cases (Bluesky.uri_of fl rt feat)) [
    | inl q ↦ rw q tt
    | inr (uri, q) ↦
        rw q (elim (Bool-cases (leb max_urls (length (Bluesky.with_uri fl rt uri urls)))) [
          | inl t ↦ rw t (omega (arith, h, length-with_uri uri urls))
          | inr f ↦
              rw f
                (feature_urls-Bounded feats (Bluesky.with_uri fl rt uri urls) (leb_false→lt _ _ f))
        ])
  ]

  facet_loop-AtMost :
      (facets : List (Json fl.F)) (urls : List Text)
      → length urls < 32
      → AtMost (Bluesky.facet_loop fl rt facets urls)
  unfolding Bluesky.facet_loop ◌>>=◌
  facet_loop-AtMost [] urls h = omega (arith, h)
  facet_loop-AtMost (facet ∷ facets) urls h =
      elim (Option-cases (Bluesky.features_of fl rt facet)) [
        | inl q ↦ rw q tt
        | inr (feats, q) ↦ rw q (
            step (Bluesky.feature_urls fl rt feats urls) (feature_urls-Bounded feats urls h)
              (λ us k. facet_loop-AtMost facets us k))
      ]
    where
      step :
          (o : Option (Bool × List Text))
          → Bounded o
          → ((us : List Text) → length us < 32 → AtMost (Bluesky.facet_loop fl rt facets us))
          → AtMost (o >>= (λ r. if r.0 then some r.1 else Bluesky.facet_loop fl rt facets r.1))
      step none b go = tt
      step (some (true, us)) b go = b
      step (some (false, us)) b go = go us b

  facet_urls-AtMost : (post : Json fl.F) → AtMost (Bluesky.facet_urls fl rt post)
  unfolding Bluesky.facet_urls ◌>>=◌
  facet_urls-AtMost post = elim (Option-cases (get (codes "facets") post)) [
    | inl q ↦ rw q tt
    | inr (facets, q) ↦
        rw q (elim (Option-cases (Bluesky.iterate (or_else fl facets (array no_element)))) [
          | inl p ↦ rw p tt
          | inr (list, p) ↦ rw p (facet_loop-AtMost list [] (omega arith))
        ])
  ]

  length-bsky_lang : (x : Json fl.F) → length (Bluesky.lang_of fl rt x) ≤ 8
  unfolding Bluesky.lang_of
  length-bsky_lang (array xs) = first (elements xs)
    where
      first :
          (ys : List (Json fl.F))
          → length (elim ys [
            | [] ↦ codes "und"
            | y ∷ rest ↦ if is_text y then take 8 (rt.lower (text_of y)) else codes "und"
          ])
            ≤ 8
      first [] = omega arith
      first (y ∷ rest) =
          one_of (is_text y) 8 (take 8 (rt.lower (text_of y))) (codes "und")
            (length-take_le 8 8 (rt.lower (text_of y)) (omega arith)) (omega arith)
  length-bsky_lang null = omega arith
  length-bsky_lang (boolean b) = omega arith
  length-bsky_lang (integer z) = omega arith
  length-bsky_lang (number f) = omega arith
  length-bsky_lang (string t) = omega arith
  length-bsky_lang (object ms) = omega arith

  length-uri_key : (uri : Text) → length (Bluesky.uri_key fl rt uri) ≤ 256
  unfolding Bluesky.uri_key
  length-uri_key uri = length-prefixed (codes "bsky:") 40 256 (rt.sha256 uri) (omega arith)

  parent_fits : (uri : Json fl.F) → max_len_opt max_ref_len (Bluesky.parent_of fl rt uri) ≡ true
  parent_fits uri = elim (Bool-cases (nonempty (text_of uri))) [
    | inl t ↦ rw t (le→leb _ _ (length-uri_key (text_of uri)))
    | inr f ↦ rw f refl
  ]

  bluesky_draft :
      (commit post : Json fl.F) (did : Text) (rkey : Json fl.F) (text : Text)
      → Good (Bluesky.draft_with fl rt commit post did rkey text)
  unfolding Bluesky.draft_with short_entities
  bluesky_draft commit post did rkey text = Every-bind _ _ (λ reply a. Every-bind _ _ (λ parent b.
      Every-bind _ _ (λ parent_uri c. Every-bind _ _ (λ langs d. Every-bind _ _ (λ created e.
        Every-bind _ _ (λ urls f. Every-bind _ _ (λ cid g. made (record {
          source = omega arith;
          lang = length-bsky_lang langs;
          text = length-take_le 8192 8192 text (omega arith);
          entities = omega arith;
          short = refl;
          urls = subst AtMost f (facet_urls-AtMost post);
          author = length-take_le 32 256 (rt.sha256 did) (omega arith);
          parent = parent_fits parent_uri;
          hash = length-uri_key _;
          raw = length-take_le 256 256 (str fl rt cid) (omega arith);
        }))))))))

  pub bluesky-Good : (x : Json fl.F) → Good (Bluesky.draft fl rt x)
  unfolding Bluesky.draft
  bluesky-Good x = Every-bind _ _ (λ did a. Every-bind _ _ (λ commit b. Every-bind _ _ (λ post c.
      Every-bind _ _ (λ rkey d. Every-bind _ _ (λ text e.
        Every-needs _ _ (bluesky_draft commit post (text_of did) rkey (text_of text)))))))
