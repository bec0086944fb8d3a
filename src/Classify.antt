-- ===== src/Classify.antt =====
-- libs/classify/classifier.py: the heuristic relevance score. str.lower is a parameter.
use pi_news_aggregator.Prelude.{
  Bool, true, false, ltb, List, [], ◌∷◌, Text, codes, length, has_infix, nat_eq, if◌then◌else◌,
}
use pi_news_aggregator.Floats.{Float, fmin}

abbrev pub news_cues : List Text
news_cues =
    codes "breaking"
    ∷ codes "urgent"
    ∷ codes "explosion"
    ∷ codes "earthquake"
    ∷ codes "quake"
    ∷ codes "attack"
    ∷ codes "killed"
    ∷ codes "dead"
    ∷ codes "evacuat"
    ∷ codes "outbreak"
    ∷ codes "strike"
    ∷ codes "airstrike"
    ∷ codes "fire"
    ∷ codes "collapse"
    ∷ codes "shooting"
    ∷ codes "flood"
    ∷ codes "storm"
    ∷ codes "protest"
    ∷ codes "sanction"
    ∷ codes "missile"
    ∷ codes "wildfire"
    ∷ codes "hostage"
    ∷ codes "derail"
    ∷ codes "blast"
    ∷ []

-- any(cue in t for cue in cues)
unfoldable pub any_cue : Text → List Text → Bool
any_cue t [] = false
any_cue t (cue ∷ cues) = if has_infix t cue then true else any_cue t cues

module _ (fl : Float) (lower : Text → Text) where
  unfoldable pub heuristic_score : Text → fl.F
  unfolding any_cue
  heuristic_score text =
      let start = fl.dec 3 1 in
      let with_length = if ltb 80 (length text) then fl.add start (fl.dec 2 1) else start in
      let with_cues =
        if any_cue (lower text) news_cues then fl.add with_length (fl.dec 3 1) else with_length in
      fmin fl (fl.dec 1 0) with_cues
