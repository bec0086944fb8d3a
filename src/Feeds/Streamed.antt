-- ===== src/Feeds/Streamed.antt =====
-- The normalizers of Mastodon and Wikipedia: the fields that they cut.
use pi_news_aggregator.Prelude.{
  ◌≤◌, ◌≡◌, refl, subst, ◌&&◌, not, leb→le, ltb, leb, some, [], ◌++◌, Text, codes, take, length,
  arith, Bool-cases, and_true→both, Option-cases, inl, inr, nonempty, contains, list_eq, nat_eq,
}
use pi_news_aggregator.Floats.{Float}
use package.pi_news_aggregator.Feeds.{
  Json, string, array, object, null, boolean, integer, number, Runtime, str, short_entities, truthy,
  text_of, or_else,
}
use package.pi_news_aggregator.Feeds.Mastodon
use package.pi_news_aggregator.Feeds.Wikipedia
use package.pi_news_aggregator.Feeds.Fitting.{
  one_of, Good, skipped, made, Every-bind, Every-needs, length-http_urls, length-take_le,
  length-prefixed,
}

module _ (fl : Float) (rt : Runtime fl) where
  mastodon_draft :
      (instance' : Text) (status : Json fl.F) (uri text : Text)
      → Good (Mastodon.draft_with fl rt instance' status uri text)
  unfolding Mastodon.draft_with Mastodon.lang_of Mastodon.author_of short_entities
  mastodon_draft instance' status uri text = Every-bind _ _ (λ account a.
      Every-bind _ _ (λ account_id b. Every-bind _ _ (λ url c. Every-bind _ _ (λ lang d.
        Every-bind _ _ (λ created e. Every-bind _ _ (λ id f. made (record {
          source = omega arith;
          lang =
              one_of (nonempty (text_of lang)) 8 (take 8 (rt.lower (text_of lang))) (codes "und")
                (length-take_le 8 8 (rt.lower (text_of lang)) (omega arith)) (omega arith);
          text = length-take_le 8192 8192 text (omega arith);
          entities = omega arith;
          short = refl;
          urls = length-http_urls url;
          author =
              one_of (truthy fl account_id) 256
                (take 32 (rt.sha256 (instance' ++ codes ":" ++ str fl rt account_id))) []
                (length-take_le 32 256 (rt.sha256 (instance' ++ codes ":" ++ str fl rt account_id))
                  (omega arith))
                (omega arith);
          parent = refl;
          hash = length-prefixed (codes "masto:") 40 256 (rt.sha256 uri) (omega arith);
          raw = length-take_le 256 256 (str fl rt id) (omega arith);
        })))))))

  pub mastodon-Good : (instance' : Text) (x : Json fl.F) → Good (Mastodon.draft fl rt instance' x)
  unfolding Mastodon.draft
  mastodon-Good instance' x =
      Every-bind _ _
        (λ uri a. Every-bind _ _ (λ content b. Every-needs _ _ (mastodon_draft instance' x _ _)))

  length-wiki_lang : (x : Json fl.F) → length (Wikipedia.lang_of fl rt x) ≤ 8
  unfolding Wikipedia.lang_of
  length-wiki_lang (string t) =
      elim (Option-cases (Wikipedia.without_suffix (codes ".wikipedia.org") t)) [
        | inl q ↦ rw (q, length) (omega arith)
        | inr (p, q) ↦
            rw (q, length)
              (elim (Bool-cases (ltb 1 (length p) && (leb (length p) 8 && not (contains 46 p)))) [
                | inl u ↦
                    rw u (leb→le _ _ (and_true→both _ _ (and_true→both (ltb 1 (length p)) _ u).1).0)
                | inr f ↦ rw f (omega arith)
              ])
      ]
  length-wiki_lang null = omega arith
  length-wiki_lang (boolean b) = omega arith
  length-wiki_lang (integer z) = omega arith
  length-wiki_lang (number f) = omega arith
  length-wiki_lang (array xs) = omega arith
  length-wiki_lang (object ms) = omega arith

  length-key_of :
      (domain : Text) (rev id : Json fl.F) (key : Text)
      → Wikipedia.key_of fl rt domain rev id ≡ some key
      → length key ≤ 256
  unfolding Wikipedia.key_of
  length-key_of domain rev id key q = elim (Bool-cases (truthy fl rev)) [
    | inl t ↦ cut (codes "wiki:" ++ domain ++ codes ":" ++ str fl rt rev) (rw t at q)
    | inr f ↦ elim (Bool-cases (truthy fl id)) [
      | inl t ↦ cut (codes "wiki:" ++ domain ++ codes ":" ++ str fl rt id) (rw t at (rw f at q))
      | inr g ↦ cc (rw g at (rw f at q))
    ]
  ]
    where
      same : (x : Text) → some (take 256 x) ≡ some key → take 256 x ≡ key
      same x q = cc q

      cut : (x : Text) → some (take 256 x) ≡ some key → length key ≤ 256
      cut x q =
          subst (λ (k : Text). length k ≤ 256) (same x q) (length-take_le 256 256 x (omega arith))

  wikipedia_draft :
      (evt meta : Json fl.F) (domain : Text) (title : Json fl.F)
      → Good (Wikipedia.draft_with fl rt evt meta domain title)
  unfolding Wikipedia.draft_with Wikipedia.hash_author short_entities
  wikipedia_draft evt meta domain title = Every-bind _ _ (λ comment a. Every-bind _ _ (λ uri b.
      Every-bind _ _ (λ title_url c. Every-bind _ _ (λ revision d. Every-bind _ _ (λ rev e.
        Every-bind _ _ (λ id f. Every-bind _ _ (λ ref g. Every-bind _ _ (λ dt h.
          Every-bind _ _ (λ server_name i. Every-bind _ _ (λ user j.
            elim (Option-cases (Wikipedia.key_of fl rt domain rev id)) [
              | inl q ↦ rw q skipped
              | inr (key, q) ↦ rw q (
                  made (record {
                    source = omega arith;
                    lang = length-wiki_lang server_name;
                    text =
                        length-take_le 8192 8192 (Wikipedia.text_with fl rt title comment)
                          (omega arith);
                    entities = omega arith;
                    short = refl;
                    urls = length-http_urls (or_else fl uri title_url);
                    author =
                        one_of (truthy fl user) 256
                          (take 32 (rt.sha256 (domain ++ codes ":" ++ str fl rt user))) []
                          (length-take_le 32 256 (rt.sha256 (domain ++ codes ":" ++ str fl rt user))
                            (omega arith))
                          (omega arith);
                    parent = refl;
                    hash = length-key_of domain rev id key q;
                    raw = length-take_le 256 256 (str fl rt ref) (omega arith);
                  }))
            ]))))))))))

  pub wikipedia-Good : (x : Json fl.F) → Good (Wikipedia.draft fl rt x)
  unfolding Wikipedia.draft
  wikipedia-Good x = Every-bind _ _ (λ meta a.
      Every-bind _ _
        (λ domain b. Every-bind _ _ (λ title c. Every-needs _ _ (wikipedia_draft x meta _ title))))
