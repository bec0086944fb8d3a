-- ===== src/Witness/Samples.antt =====
-- Concrete data: two wire copies and one independent post, a small gazetteer, a small vocabulary.
use pi_news_aggregator.Bus.{acked}
use pi_news_aggregator.Prelude.{ℕ, true, false, none, some, List, [], ◌∷◌, Text, codes}
use pi_news_aggregator.Floats.Fixed.{fixed}
use pi_news_aggregator.Schema.{Item, place, SourceClass}
use pi_news_aggregator.Gazetteer.{Gazetteer}
use pi_news_aggregator.Bus.{ScopedPublisher}
use pi_news_aggregator.Enrich.Inference.Redelivery.{in_memory}
use pi_news_aggregator.Enrich.Governor.{default_config, AdmissionGovernor}
use pi_news_aggregator.Enrich.Inference.{Parts, Inference, Outside}
use pi_news_aggregator.Tokenize.{Unicode, WordPieceTokenizer}
use pi_news_aggregator.Trust.Edges.{ProvNode, ProvEdge, copy}

abbrev pub wire_copy : ℕ → Text → ProvNode
wire_copy id source = record {
  item_id = id;
  author_ref = [];
  parent_ref = none;
  content_hash = [];
  urls = [];
  simhash = 5;
  source = source;
  source_class = codes "mainstream";
  wire_ref = codes "reuters";
}

abbrev pub post : ℕ → ProvNode
post id = record {
  item_id = id;
  author_ref = codes "ann";
  parent_ref = none;
  content_hash = [];
  urls = [];
  simhash = 9;
  source = codes "bluesky";
  source_class = codes "social";
  wire_ref = [];
}

abbrev pub three_nodes : List ProvNode
three_nodes = wire_copy 1 (codes "press") ∷ wire_copy 2 (codes "local") ∷ post 3 ∷ []

abbrev pub one_edge : List ProvEdge
one_edge = record { src = 2; dst = 1; edge_type = copy } ∷ []

abbrev pub lower_same : Text → Text
lower_same t = t

abbrev pub small_gazetteer : Gazetteer fixed
small_gazetteer = record {
  gaz =
      (
        codes "new york",
        record { canonical = codes "New York"; type = place; lat = none; lon = none },
      )
      ∷ [];
  max_words = 2;
}

abbrev pub item_of : SourceClass → Text → Item (fixed.F)
item_of c text = record {
  id = 1;
  source = codes "bluesky";
  source_class = c;
  ts_observed = 0;
  ts_event = none;
  lang = codes "en";
  text = text;
  entities = [];
  geo = none;
  urls = [];
  author_ref = [];
  parent_ref = none;
  content_hash = [];
  raw_ref = [];
}

abbrev pub enriched_publisher : ScopedPublisher
enriched_publisher = record { prefix = codes "enriched."; max_bytes = 100 }

-- An embedder that always fails.
abbrev pub broken_parts : Parts fixed
broken_parts = record {
  lower = lower_same;
  casefold = lower_same;
  gaz = small_gazetteer;
  score = λ t. fixed.dec 5 1;
  cfg = default_config fixed;
  extract = λ t. some [];
  encode = λ t. none;
  to_json = λ e. 0 ∷ [];
  publisher = enriched_publisher;
}

abbrev pub outside_now : Outside (fixed.F)
outside_now = record { now = fixed.dec 1 0; random = fixed.dec 5 1; reply = acked }

abbrev pub new_governor : AdmissionGovernor (fixed.F)
new_governor = record { theta = fixed.dec 0 0; rate = fixed.dec 0 0; last_t = none }

abbrev pub new_inference : Inference fixed (in_memory 9)
new_inference = record {
  filter = record { dedup = []; mentions = [] };
  gov = new_governor;
  published = 0;
  shed = 0;
  explored = 0;
  log = [];
}

abbrev pub ascii : Unicode
ascii = record {
  category_c = λ c. false;
  category_zs = λ c. false;
  category_p = λ c. false;
  category_mn = λ c. false;
  normalize_nfd = λ t. t;
  lower = λ t. t;
}

abbrev pub small_tokenizer : WordPieceTokenizer
small_tokenizer = record {
  vocab = (codes "news", 5) ∷ (codes "##room", 6) ∷ [];
  do_lower_case = true;
  strip_accents = true;
  max_len = 16;
  cls_id = 1;
  sep_id = 2;
  pad_id = 0;
  unk_id = 3;
}
