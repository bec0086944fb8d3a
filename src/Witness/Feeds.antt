-- ===== src/Witness/Feeds.antt =====
-- The normalizers on a small record.
use pi_news_aggregator.Prelude.{◌≡◌, some, none, [], ◌∷◌, codes, arith}
use pi_news_aggregator.Floats.Fixed.{fixed}
use pi_news_aggregator.Schema.{authoritative}
use pi_news_aggregator.Feeds.{
  ◌>>=◌, Json, string, object, member, no_member, Runtime, refused, malformed,
}
use pi_news_aggregator.Feeds.Usgs
use pi_news_aggregator.Feeds.Noaa
use pi_news_aggregator.Feeds.Gdacs
use pi_news_aggregator.Feeds.Gdelt
use pi_news_aggregator.Feeds.Press
use pi_news_aggregator.Feeds.Mastodon
use pi_news_aggregator.Feeds.Wikipedia
use pi_news_aggregator.Feeds.Bluesky
use pi_news_aggregator.Feeds.Fitting.{refuse_surrogates}
use pi_news_aggregator.Feeds.Accepted.{normalizers_accepted, cap_ref, rss_to_item_refuses}

abbrev runtime : Runtime fixed
runtime = record {
  repr = λ x. codes "None";
  to_float = λ x. refused;
  from_ms = λ x. some 5;
  fromisoformat = λ t. malformed;
  strptime = λ t. none;
  parsedate = λ t. malformed;
  lower = λ t. t;
  strip = λ t. t;
  split = λ c t. t ∷ [];
  replace = λ a b t. t;
  sha256 = λ t. t;
  sub_breaks = λ t. t;
  sub_tags = λ t. t;
  unescape = λ t. t;
  uuid = 1;
  now = 10;
}

abbrev release : Json (fixed.F)
release = object (
    member (codes "title") (string (codes "Quake"))
      (member (codes "guid") (string (codes "g1")) no_member))

normalizers_accepted_example :
    (Usgs.normalize fixed runtime release
      ≡ (Usgs.draft fixed runtime release >>= refuse_surrogates))
    × (Noaa.normalize fixed runtime release
        ≡ (Noaa.draft fixed runtime release >>= refuse_surrogates))
    × (Gdacs.normalize fixed runtime release
        ≡ (Gdacs.draft fixed runtime release >>= refuse_surrogates))
    × (Gdelt.normalize fixed runtime release
        ≡ (Gdelt.draft fixed runtime release >>= refuse_surrogates))
    × (Mastodon.normalize fixed runtime (codes "m.org") release
        ≡ (Mastodon.draft fixed runtime (codes "m.org") release >>= refuse_surrogates))
    × (Wikipedia.normalize fixed runtime release
        ≡ (Wikipedia.draft fixed runtime release >>= refuse_surrogates))
    × (Bluesky.normalize fixed runtime release
        ≡ (Bluesky.draft fixed runtime release >>= refuse_surrogates))
normalizers_accepted_example = normalizers_accepted fixed runtime (codes "m.org") release

rss_to_item_refuses_example :
    Press.rss_to_item fixed runtime (codes "cisa") authoritative none release ≡ (
      Press.draft fixed runtime (codes "cisa") authoritative none release >>= cap_ref fixed runtime)
rss_to_item_refuses_example =
    rss_to_item_refuses fixed runtime (codes "cisa") authoritative none release (omega arith)
