-- ===== src/Score.antt =====
-- services/score: the gap score of the active stories, and the alerts. The answers of the database
-- are inputs of a cycle and its writes are outputs; statistics.mean and pstdev are parameters.
pub mod Series
pub mod Alerting
use pi_news_aggregator.Prelude.{
  ℕ, zero, suc, ◌+◌, ◌-◌, ◌*◌, ◌/◌, max, Bool, true, false, ◌&&◌, not, leb, ltb, Option, none, some,
  List, [], ◌∷◌, ◌++◌, Text, Dict, get, length, nonempty, nat_eq, if◌then◌else◌,
}
use pi_news_aggregator.Floats.{Float, fmax, fmin}
use pi_news_aggregator.Trust.States.{TrustState, rumor, corroboration_weight}

-- services/score/inauth.py
pub record StorySignals : Type 0 where
  pub social_items : ℕ
  pub independent_origins : ℕ
  pub copy_edges : ℕ
  pub synced_items : ℕ
  pub low_rep_items : ℕ

-- The windows are in seconds, as are all times.
pub record ScoreConfig (F : Type 0) : Type 0 where
  pub baseline : ℕ
  pub bin : ℕ
  pub warm_min : ℕ
  pub mainstream_saturation : ℕ
  pub gap_threshold : F
  pub w_amplification : F
  pub w_copy : F
  pub w_sync : F
  pub w_low_rep : F
  pub min_social : ℕ
  pub flag_threshold : F

-- A row of active_stories, with the answers of the database about this story.
pub record StoryRow (F : Type 0) : Type 0 where
  pub id : ℕ
  pub entity_set : List Text
  pub trust_state : TrustState
  pub independent_origins : ℕ
  pub mention_series : Dict ℕ F
  pub mainstream_count : ℕ
  pub social : ℕ
  pub synced : ℕ
  pub copy_edges : ℕ
  pub low_rep : ℕ
  -- insert_alert(…): no alert of this story stands within the cooldown
  pub inserts : Bool

-- The calls update_scores(…) and insert_alert(…).
pub data Write (F : Type 0) : Type 0 where
  update_scores : (id : ℕ) → (vz presence gap inauth : F) → Write F
  insert_alert : (id : ℕ) → (gap vz : F) → TrustState → Write F

pub record Scorer : Type 0 where
  pub scored : ℕ
  pub alerts : ℕ

-- The local counters of a cycle, and its writes in order.
pub record Cycle (F : Type 0) : Type 0 where
  pub alerted : ℕ
  pub flagged : ℕ
  pub scored : ℕ
  pub writes : List (Write F)

pub record SystemState : Type 0 where
  pub baseline_warming : Bool
  pub stories_scored : ℕ
  pub stories_flagged_inauthentic : ℕ
  pub alerts_raised : ℕ

-- Align to the grid of bins.
unfoldable pub bin_floor : ℕ → ℕ → ℕ
bin_floor bin ts = ts / bin * bin

module _ (fl : Float) where
  unfoldable pub ewma_from : fl.F → fl.F → List fl.F → List fl.F
  ewma_from alpha prev [] = []
  ewma_from alpha prev (x ∷ series) =
      let next = fl.add (fl.mul alpha x) (fl.mul (fl.sub (fl.dec 1 0) alpha) prev) in
      next ∷ ewma_from alpha next series

  unfoldable pub ewma : fl.F → List fl.F → List fl.F
  unfolding ewma_from
  ewma alpha [] = []
  ewma alpha (x ∷ series) = x ∷ ewma_from alpha x series

  -- [s[i] - 2 * s[i - 1] + s[i - 2] for i in range(2, len(s))]
  unfoldable pub accelerations : List fl.F → List fl.F
  accelerations (a ∷ b ∷ c ∷ s) =
      fl.add (fl.sub c (fl.mul (fl.dec 2 0) b)) a ∷ accelerations (b ∷ c ∷ s)
  accelerations _ = []

  -- accel[:-1] and accel[-1]
  unfoldable pub split_last : fl.F → List fl.F → List fl.F × fl.F
  split_last x [] = ([], x)
  split_last x (y ∷ ys) = let (init, last) = split_last y ys in (x ∷ init, last)

  abbrev pub fabs : fl.F → fl.F
  fabs x = if fl.ltb x (fl.dec 0 0) then fl.neg x else x

  unfoldable pub z_score : (List fl.F → fl.F) → (List fl.F → fl.F) → List fl.F → fl.F → fl.F
  z_score mean pstdev baseline latest =
      let sd = pstdev baseline in
      let eps = fl.dec 1 9 in
      if fl.ltb sd eps
      then (if fl.ltb (fabs latest) eps then fl.dec 0 0 else fl.dec 10 0)
      else fl.div (fl.sub latest (mean baseline)) sd

  -- MIN_BUCKETS is 12, so there is a last acceleration.
  unfoldable pub velocity_z : (List fl.F → fl.F) → (List fl.F → fl.F) → fl.F → List fl.F → fl.F
  unfolding ewma accelerations split_last z_score
  velocity_z mean pstdev alpha series =
      if ltb (length series) 12 then fl.dec 0 0 else elim (accelerations (ewma alpha series)) [
        | [] ↦ fl.dec 0 0
        | x ∷ xs ↦ let (baseline, latest) = split_last x xs in z_score mean pstdev baseline latest
      ]

  unfoldable pub gap_score : fl.F → fl.F → fl.F → fl.F → fl.F
  gap_score velocity_z_ mainstream_presence weight inauthenticity_ =
      let one = fl.dec 1 0 in
      fl.mul
        (fl.mul (fl.mul (fmax fl (fl.dec 0 0) velocity_z_) (fl.sub one mainstream_presence)) weight)
        (fl.sub one inauthenticity_)

  -- buckets.get(t, 0.0)
  unfoldable pub bucket_at : Dict ℕ fl.F → ℕ → fl.F
  bucket_at buckets t = elim (get t buckets) [ none ↦ fl.dec 0 0 | some n ↦ n ]

  -- The `while` loop.
  unfoldable pub fill_loop : ℕ → Dict ℕ fl.F → ℕ → ℕ → ℕ → List fl.F
  fill_loop zero buckets t until step = []
  fill_loop (suc fuel) buckets t until step =
      let rest = fill_loop fuel buckets (t + step) until step in
      if leb t until then bucket_at buckets t ∷ rest else []

  -- The fuel is for a step of one.
  unfoldable pub fill_series : Dict ℕ fl.F → ℕ → ℕ → ℕ → List fl.F
  unfolding fill_loop
  fill_series buckets since until step = fill_loop (suc until - since) buckets since until step

  unfoldable pub clamp01 : fl.F → fl.F
  clamp01 x = fmax fl (fl.dec 0 0) (fmin fl (fl.dec 1 0) x)

  -- a / b, for numbers
  abbrev pub ratio : ℕ → ℕ → fl.F
  ratio a b = fl.div (fl.dec a 0) (fl.dec b 0)

  unfoldable pub inauthenticity : ScoreConfig fl.F → StorySignals → fl.F
  inauthenticity cfg sig =
      let n = sig.social_items in
      let amplification = clamp01 (fl.sub (fl.dec 1 0) (ratio sig.independent_origins n)) in
      let copy_density = clamp01 (ratio sig.copy_edges n) in
      let synchronization = clamp01 (ratio sig.synced_items n) in
      let low_rep = clamp01 (ratio sig.low_rep_items n) in
      if ltb n cfg.min_social
      then fl.dec 0 0
      else clamp01 (
          fl.add
            (fl.add
              (fl.add (fl.mul cfg.w_amplification amplification) (fl.mul cfg.w_copy copy_density))
              (fl.mul cfg.w_sync synchronization))
            (fl.mul cfg.w_low_rep low_rep))

  abbrev pub weight : TrustState → fl.F
  weight trust = fl.dec (corroboration_weight trust) 1

  abbrev pub is_rumor : TrustState → Bool
  is_rumor rumor = true
  is_rumor _ = false

  module _ (mean pstdev : List fl.F → fl.F) (cfg : ScoreConfig fl.F) (now since : ℕ) where
    abbrev pub signals : StoryRow fl.F → StorySignals
    signals s = record {
      social_items = s.social;
      independent_origins = s.independent_origins;
      copy_edges = s.copy_edges;
      synced_items = s.synced;
      low_rep_items = s.low_rep;
    }

    unfoldable pub story_vz : StoryRow fl.F → fl.F
    unfolding bin_floor
    story_vz s =
        velocity_z mean pstdev (fl.dec 3 1)
          (fill_series s.mention_series since (bin_floor cfg.bin now) cfg.bin)

    unfoldable pub story_presence : StoryRow fl.F → fl.F
    story_presence s = fmin fl (fl.dec 1 0) (ratio s.mainstream_count cfg.mainstream_saturation)

    unfoldable pub story_inauth : StoryRow fl.F → fl.F
    story_inauth s = inauthenticity cfg (signals s)

    unfoldable pub story_gap : StoryRow fl.F → fl.F
    story_gap s = gap_score (story_vz s) (story_presence s) (weight s.trust_state) (story_inauth s)

    module _ (warming : Bool) where
      -- not warming and gap > GAP_THRESHOLD and trust is not RUMOR
      unfoldable pub alerts_on : StoryRow fl.F → Bool
      alerts_on s =
          not warming && (fl.ltb cfg.gap_threshold (story_gap s) && not (is_rumor s.trust_state))

      -- The body of the loop, for a story with entities.
      unfoldable pub score_story : StoryRow fl.F → Cycle fl.F → Cycle fl.F
      score_story s c =
          let update =
            update_scores s.id (story_vz s) (story_presence s) (story_gap s) (story_inauth s) in
          let alert = insert_alert s.id (story_gap s) (story_vz s) s.trust_state in
          record {
            alerted = if alerts_on s && s.inserts then suc c.alerted else c.alerted;
            flagged =
                if fl.leb cfg.flag_threshold (story_inauth s) then suc c.flagged else c.flagged;
            scored = suc c.scored;
            writes =
                if alerts_on s then c.writes ++ update ∷ alert ∷ [] else c.writes ++ update ∷ [];
          }

      unfoldable pub cycle_loop : List (StoryRow fl.F) → Cycle fl.F → Cycle fl.F
      unfolding score_story
      cycle_loop [] c = c
      cycle_loop (s ∷ stories) c =
          let scored = cycle_loop stories (score_story s c) in
          let passed = cycle_loop stories c in if nonempty s.entity_set then scored else passed

  -- `earliest` is the oldest bucket of the tallies, at most `baseline` old.
  unfoldable pub is_warming : ScoreConfig fl.F → ℕ → Option ℕ → Bool
  is_warming cfg now none = true
  is_warming cfg now (some earliest) = ltb now (earliest + cfg.warm_min)

  unfoldable pub since_of : ScoreConfig fl.F → ℕ → Option ℕ → ℕ
  unfolding bin_floor
  since_of cfg now none = bin_floor cfg.bin now
  since_of cfg now (some earliest) = bin_floor cfg.bin (max (now - cfg.baseline) earliest)

  unfoldable pub cycle :
      (List fl.F → fl.F)
      → (List fl.F → fl.F)
      → ScoreConfig fl.F
      → ℕ
      → Option ℕ
      → List (StoryRow fl.F)
      → Scorer
      → List (Write fl.F) × SystemState × Scorer
  unfolding cycle_loop is_warming since_of
  cycle mean pstdev cfg now earliest stories scorer =
      let warming = is_warming cfg now earliest in
      let start : Cycle fl.F = record {
        alerted = 0;
        flagged = 0;
        scored = scorer.scored;
        writes = [];
      } in
      let c = cycle_loop mean pstdev cfg now (since_of cfg now earliest) warming stories start in
      (
        c.writes,
        record {
          baseline_warming = warming;
          stories_scored = length stories;
          stories_flagged_inauthentic = c.flagged;
          alerts_raised = c.alerted;
        },
        record { scored = c.scored; alerts = scorer.alerts + c.alerted },
      )
