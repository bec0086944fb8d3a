-- ===== src/Witness/Services.antt =====
-- The services over the tables: two items of one story, and a claim.
use pi_news_aggregator.Prelude.{
  sym, subst, none, ◌≤◌, ◌≡◌, ◌⊎◌, refl, true, false, some, pos, [], ◌∷◌, codes, length, list_eq,
  nat_eq,
}
use pi_news_aggregator.Floats.Fixed.{fixed}
use pi_news_aggregator.Schema.{EnrichedItem, TallyFlush, ClaimResult, social}
use pi_news_aggregator.Dedup.Simhash.{simhash64, to_signed64, from_signed64}
use pi_news_aggregator.Dedup.Simhash.Signed.{InBigint, from_signed64-to_signed64-simhash64}
use pi_news_aggregator.Trust.Urls.{Urllib}
use pi_news_aggregator.Trust.States.{rank, rumor}
use pi_news_aggregator.Tables.{ItemRow, StoryRow, Tables}
use pi_news_aggregator.Tables.Items.{
  story_prov, has_item, insert_item, assign_item, nearest, near_rows, is_near,
}
use pi_news_aggregator.Tables.Stories.{find_story, story_state, promote_primary_backed}
use pi_news_aggregator.Bus.{acked}
use pi_news_aggregator.Cluster.{entity_texts, choose_story, nearest_joining}
use pi_news_aggregator.Tables.Statements.Links.{Linked}
use pi_news_aggregator.Cluster.Service
use pi_news_aggregator.Cluster.Service.{
  Setup, Clusterer, Moment, neighbors, row_of, update_story, target_of, story_for,
}
use pi_news_aggregator.Cluster.Service.Evidence.{Evidence, update_story-Evidence}
use pi_news_aggregator.Cluster.Service.Errors.{Outcome, handle-Outcome}
use pi_news_aggregator.Writer
use pi_news_aggregator.Writer.{Writer}
use pi_news_aggregator.Trust.Matcher
use pi_news_aggregator.Trust.Matcher.{Matching, PrimaryMatcher}
use pi_news_aggregator.Trust.Matcher.Promoting.{Promotion, handle-Promotes}
use pi_news_aggregator.Pipeline.{Reach, stored, clustered, done, more}
use pi_news_aggregator.Pipeline.Promises.{store_once, tally_once}
use pi_news_aggregator.Pipeline.Interleaved.{
  World, world, idle, chosen, assigned, stores, chooses, assigns_new, raises, promotes, Run,
}
use pi_news_aggregator.Pipeline.Interleaved
use pi_news_aggregator.Pipeline.Interleaved.Trust.{Calm, trust_never_falls}
use pi_news_aggregator.Pipeline.Interleaved.Attached.{Attached, Run-Attached}
use pi_news_aggregator.Pipeline.Progress.{Clustered, cluster_after_store}
use package.pi_news_aggregator.Witness.Samples.{lower_same, item_of, enriched_publisher}
use package.pi_news_aggregator.Witness.Texts.{flat}

-- Every url is a host.
abbrev urllib : Urllib
urllib = record {
  urlsplit = λ t. some (record { netloc = t; path = []; query = [] });
  parse_qsl = λ t. [];
  urlencode = λ params. [];
  strip = lower_same;
  casefold = lower_same;
}

abbrev setup : Setup fixed
setup = record {
  distance = λ a b. fixed.dec 1 1;
  casefold = lower_same;
  words_of = λ t. t ∷ [];
  h64 = length;
  is_word = λ c. true;
  urllib = urllib;
  to_json = λ r. r.text;
  publisher = enriched_publisher;
  theta = fixed.dec 7 1;
  window = 100;
  topk = 5;
  corroboration_n = 3;
  corroboration_sources = 2;
}

abbrev matching : Matching fixed
matching = record {
  casefold = lower_same;
  lower = lower_same;
  is_space = λ c. false;
  trig = flat;
  geo_km_max = fixed.dec 100 0;
  window = 50;
  candidate_limit = 10;
}

abbrev no_tables : Tables (fixed.F)
no_tables = record {
  items = [];
  stories = [];
  provenance_edges = [];
  entity_tallies = [];
  system_state = [];
}

abbrev writer : Writer (fixed.F)
writer = record { stored = 0; tallies = 0; db = no_tables }

abbrev enriched : EnrichedItem (fixed.F)
enriched = record {
  item = item_of social (codes "fire in rome");
  embedding = [];
  exploration = false;
}

abbrev now : Moment
now = record { now = 200; new_id = 7; reply = acked }

-- The cluster service, after the writer has stored the item.
abbrev clusterer : Clusterer (fixed.F)
clusterer = record {
  assigned = 0;
  new_stories = 0;
  claims = 0;
  db = (Writer.handle enriched writer).db;
  log = [];
}

abbrev after_cluster : Tables (fixed.F)
after_cluster = (Service.handle fixed setup now enriched clusterer).1.db

stored_and_clustered : Reach fixed setup matching no_tables after_cluster
stored_and_clustered = more (stored enriched writer) (more (clustered now enriched clusterer) done)

abbrev after_store : Tables (fixed.F)
after_store = (Writer.handle enriched writer).db

-- The item is stored, no story fits, and the handler raises before it writes the new one.
abbrev cut_off : World (fixed.F)
cut_off = record {
  db = (assigned fixed setup now enriched none after_store).1;
  phase = idle;
  cut = 7 ∷ [];
}

no_story : target_of fixed setup now enriched after_store ≡ none
unfolding target_of choose_story nearest near_rows neighbors nearest_joining Writer.handle
    insert_item has_item is_near entity_texts
no_story = refl

is_assigned : (assigned fixed setup now enriched none after_store).0 ≡ true
unfolding assign_item Writer.handle insert_item has_item
is_assigned = refl

interrupted : Run fixed setup (world fixed setup no_tables idle []) cut_off
unfolding Writer.handle
interrupted = Interleaved.more (stores enriched.item enriched.embedding enriched.exploration) (
    Interleaved.more (chooses now enriched) (
      subst
        (λ o. Run fixed setup (world fixed setup after_store (chosen now enriched o) []) cut_off)
        (sym no_story)
        (Interleaved.more (assigns_new is_assigned) (Interleaved.more raises Interleaved.done))))

nothing-Attached : Attached (world fixed setup no_tables idle [])
nothing-Attached = record { items = λ r story m e. elim m [ ]; target = λ story e. cc e }

Run-Attached_example : Attached cut_off
Run-Attached_example = Run-Attached fixed setup interrupted nothing-Attached

abbrev promoted_first : World (fixed.F)
promoted_first = world fixed setup (promote_primary_backed 7 no_tables) idle []

abbrev promoting : Run fixed setup (world fixed setup no_tables idle []) promoted_first
promoting = Interleaved.more (promotes 7) Interleaved.done

promoting-Calm : Calm fixed setup 7 promoting
promoting-Calm = ((λ q k. k), tt)

trust_never_falls_example :
    rank (story_state 7 no_tables) ≤ rank (story_state 7 (promote_primary_backed 7 no_tables))
trust_never_falls_example = trust_never_falls fixed setup 7 promoting promoting-Calm

nothing-Linked : Linked no_tables
nothing-Linked = record { stored = λ r story m e. elim m [ ] }

abbrev later_writer : Writer (fixed.F)
later_writer = record { stored = 1; tallies = 0; db = after_cluster }

store_once_example : (Writer.handle enriched later_writer).db ≡ after_cluster
store_once_example =
    store_once fixed setup matching enriched writer later_writer
      (more (clustered now enriched clusterer) done)

abbrev flush : TallyFlush (fixed.F)
flush = record {
  bucket_ts = 60;
  counts = (codes "rome", 2) ∷ [];
  sampling_active = false;
  theta = fixed.dec 0 0;
  replica = codes "a";
  flushed_at = 61;
}

abbrev after_flush : Writer (fixed.F)
after_flush = Writer.handle_tally flush writer

tally_once_example :
    (Writer.handle_tally flush after_flush).db.entity_tallies ≡ after_flush.db.entity_tallies
tally_once_example = tally_once fixed setup matching flush writer after_flush done

cluster_after_store_example :
    Clustered fixed setup enriched
      (story_for fixed setup now (target_of fixed setup now enriched clusterer.db))
      after_cluster
cluster_after_store_example =
    cluster_after_store fixed setup matching enriched writer now clusterer nothing-Linked done

handle-Outcome_example :
    Outcome fixed setup now enriched clusterer (Service.handle fixed setup now enriched clusterer)
handle-Outcome_example = handle-Outcome fixed setup now enriched clusterer refl

-- A story with a member.
abbrev member : ItemRow (fixed.F)
member = record {
  item = item_of social (codes "fire in rome");
  embedding = [];
  exploration = false;
  story_id = some 7;
  simhash = some (pos 5);
  wire_ref = [];
}

abbrev story : StoryRow (fixed.F)
story = record {
  id = 7;
  first_seen = 0;
  last_seen = 0;
  entity_set = [];
  source_set = codes "bluesky" ∷ [];
  independent_origins = 1;
  trust_state = rumor;
  centroid = [];
}

abbrev one_story : Tables (fixed.F)
one_story = record no_tables { items = member ∷ []; stories = story ∷ [] }

update_story-Evidence_example :
    Evidence fixed setup 7 one_story (update_story fixed setup 7 1 one_story)
unfolding row_of story_prov find_story
update_story-Evidence_example =
    update_story-Evidence fixed setup 7 1 member story one_story refl refl

abbrev claim : ClaimResult
claim = record { story_id = 7; item_id = 1; claim = codes "a fire burns" }

abbrev matcher : PrimaryMatcher (fixed.F)
matcher = record { matched = 0; seen = 0; db = one_story }

handle-Promotes_example :
    (Matcher.handle fixed matching claim matcher ≡ record matcher { seen = 1 })
    ⊎ (Promotion fixed matching claim one_story
        × (Matcher.handle fixed matching claim matcher
            ≡ record matcher { seen = 1; matched = 1; db = promote_primary_backed 7 one_story }))
handle-Promotes_example = handle-Promotes fixed matching claim matcher

from_signed64-to_signed64-simhash64_example :
    (from_signed64 (to_signed64 (simhash64 length (codes "rome" ∷ [])))
      ≡ simhash64 length (codes "rome" ∷ []))
    × InBigint (to_signed64 (simhash64 length (codes "rome" ∷ [])))
from_signed64-to_signed64-simhash64_example =
    from_signed64-to_signed64-simhash64 length (codes "rome" ∷ [])
