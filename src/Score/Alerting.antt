-- ===== src/Score/Alerting.antt =====
-- services/score/main.py, Scorer.cycle: what a cycle writes.
use pi_news_aggregator.Prelude.{
  ℕ, suc, ◌+◌, ◌≡◌, refl, sym, ap, ◌∙◌, inl, inr, Bool, true, false, ◌&&◌, not, Option, List, [],
  ◌∷◌, ◌++◌, nonempty, append-nil, append_assoc, Bool-cases, and_true→both, subst, arith,
  if◌then◌else◌,
}
use pi_news_aggregator.Floats.{Float}
use package.pi_news_aggregator.Score.{
  ScoreConfig, StoryRow, Write, update_scores, insert_alert, Scorer, Cycle, is_rumor, story_vz,
  story_presence, story_inauth, story_gap, alerts_on, score_story, cycle_loop, cycle, is_warming,
  since_of,
}

module _ (fl : Float) (mean pstdev : List fl.F → fl.F) (cfg : ScoreConfig fl.F) (now since : ℕ)
    (warming : Bool) where
  abbrev pub update_of : StoryRow fl.F → Write fl.F
  update_of s =
      update_scores s.id (story_vz fl mean pstdev cfg now since s)
        (story_presence fl mean pstdev cfg now since s) (story_gap fl mean pstdev cfg now since s)
        (story_inauth fl mean pstdev cfg now since s)

  abbrev pub alert_of : StoryRow fl.F → Write fl.F
  alert_of s =
      insert_alert s.id (story_gap fl mean pstdev cfg now since s)
        (story_vz fl mean pstdev cfg now since s) s.trust_state

  -- A story that may raise an alert.
  pub record Alertable (s : StoryRow fl.F) : Type 0 where
    pub warm : warming ≡ false
    pub above : fl.ltb cfg.gap_threshold (story_gap fl mean pstdev cfg now since s) ≡ true
    pub backed : is_rumor fl s.trust_state ≡ false

  -- The writes for the stories in order, and how many alerts the database took.
  pub data Scores : List (StoryRow fl.F) → List (Write fl.F) → ℕ → Type 0 where
    done : Scores [] [] 0
    passed :
        {stories : List (StoryRow fl.F)} {writes : List (Write fl.F)} {n : ℕ} (s : StoryRow fl.F)
        → nonempty s.entity_set ≡ false
        → Scores stories writes n
        → Scores (s ∷ stories) writes n
    quiet :
        {stories : List (StoryRow fl.F)} {writes : List (Write fl.F)} {n : ℕ} (s : StoryRow fl.F)
        → nonempty s.entity_set ≡ true
        → (Alertable s → ⊥)
        → Scores stories writes n
        → Scores (s ∷ stories) (update_of s ∷ writes) n
    alerting :
        {stories : List (StoryRow fl.F)} {writes : List (Write fl.F)} {n : ℕ} (s : StoryRow fl.F)
        → nonempty s.entity_set ≡ true
        → Alertable s
        → Scores stories writes n
        → Scores
            (s ∷ stories)
            (update_of s ∷ alert_of s ∷ writes)
            ((if s.inserts then 1 else 0) + n)

  not-true : (b : Bool) → not b ≡ true → b ≡ false
  not-true true h = cc h
  not-true false h = refl

  alerts_on-Alertable :
      (s : StoryRow fl.F) → alerts_on fl mean pstdev cfg now since warming s ≡ true → Alertable s
  unfolding alerts_on
  alerts_on-Alertable s h =
      let gap = story_gap fl mean pstdev cfg now since s in
      let above = fl.ltb cfg.gap_threshold gap in
      let backed = not (is_rumor fl s.trust_state) in
      let (a, bc) = and_true→both (not warming) (above && backed) h in
      let (b, c) = and_true→both above backed bc in
      record {
        warm = not-true warming a;
        above = b;
        backed = not-true (is_rumor fl s.trust_state) c;
      }

  Alertable→alerts_on :
      (s : StoryRow fl.F) → Alertable s → alerts_on fl mean pstdev cfg now since warming s ≡ true
  unfolding alerts_on
  Alertable→alerts_on s a =
      rw (a.warm, alerts_on) (rw (a.above, alerts_on) (rw (a.backed, alerts_on) refl))

  record Grown (stories : List (StoryRow fl.F)) (c c' : Cycle fl.F) : Type 0 where
    new : List (Write fl.F)
    taken : ℕ
    scores : Scores stories new taken
    writes : c'.writes ≡ c.writes ++ new
    alerted : c'.alerted ≡ taken + c.alerted

  abbrev scored : StoryRow fl.F → Cycle fl.F → Cycle fl.F
  scored s c = score_story fl mean pstdev cfg now since warming s c

  counted : (b : Bool) (n : ℕ) → (if b then suc n else n) ≡ (if b then 1 else 0) + n
  counted true n = omega arith
  counted false n = omega arith

  -- A story's writes and the count of alerts, by whether it raises one.
  score_story-writes :
      (s : StoryRow fl.F) (c : Cycle fl.F) (b : Bool)
      → alerts_on fl mean pstdev cfg now since warming s ≡ b
      → (scored s c).writes
        ≡ (if b then c.writes ++ update_of s ∷ alert_of s ∷ [] else c.writes ++ update_of s ∷ [])
  unfolding score_story
  score_story-writes s c b a =
      ap
        (λ x. if x then c.writes ++ update_of s ∷ alert_of s ∷ [] else c.writes ++ update_of s ∷ [])
        a

  score_story-alerted :
      (s : StoryRow fl.F) (c : Cycle fl.F) (b : Bool)
      → alerts_on fl mean pstdev cfg now since warming s ≡ b
      → (scored s c).alerted ≡ (if b && s.inserts then suc c.alerted else c.alerted)
  unfolding score_story
  score_story-alerted s c b a = ap (λ x. if x && s.inserts then suc c.alerted else c.alerted) a

  module _ {stories : List (StoryRow fl.F)} (s : StoryRow fl.F) (c c' : Cycle fl.F)
      (t : nonempty s.entity_set ≡ true) (g : Grown stories (scored s c) c') where
    Grown-alerting :
        alerts_on fl mean pstdev cfg now since warming s ≡ true → Grown (s ∷ stories) c c'
    Grown-alerting a = record {
      new = update_of s ∷ alert_of s ∷ g.new;
      taken = (if s.inserts then 1 else 0) + g.taken;
      scores = alerting s t (alerts_on-Alertable s a) g.scores;
      writes =
          g.writes
          ∙ ap (λ l. l ++ g.new) (score_story-writes s c true a)
          ∙ append_assoc c.writes (update_of s ∷ alert_of s ∷ []) g.new;
      alerted =
          omega (arith, g.alerted, score_story-alerted s c true a, counted s.inserts c.alerted);
    }

    Grown-quiet :
        alerts_on fl mean pstdev cfg now since warming s ≡ false → Grown (s ∷ stories) c c'
    Grown-quiet a = record {
      new = update_of s ∷ g.new;
      taken = g.taken;
      scores = quiet s t (λ al. cc (a, Alertable→alerts_on s al)) g.scores;
      writes =
          g.writes
          ∙ ap (λ l. l ++ g.new) (score_story-writes s c false a)
          ∙ append_assoc c.writes (update_of s ∷ []) g.new;
      alerted = g.alerted ∙ ap (λ n. g.taken + n) (score_story-alerted s c false a);
    }

  Grown-passed :
      {stories : List (StoryRow fl.F)} (s : StoryRow fl.F) (c c' : Cycle fl.F)
      → nonempty s.entity_set ≡ false
      → Grown stories c c'
      → Grown (s ∷ stories) c c'
  Grown-passed s c c' f g = record {
    new = g.new;
    taken = g.taken;
    scores = passed s f g.scores;
    writes = g.writes;
    alerted = g.alerted;
  }

  cycle_loop-Grown :
      (stories : List (StoryRow fl.F)) (c : Cycle fl.F)
      → Grown stories c (cycle_loop fl mean pstdev cfg now since warming stories c)
  unfolding cycle_loop
  cycle_loop-Grown [] c = record {
    new = [];
    taken = 0;
    scores = done;
    writes = sym (append-nil c.writes);
    alerted = omega arith;
  }
  cycle_loop-Grown (s ∷ stories) c = elim (Bool-cases (nonempty s.entity_set)) [
    | inr f ↦ rw (f, cycle_loop) (Grown-passed s c _ f (cycle_loop-Grown stories c))
    | inl t ↦
        let g = cycle_loop-Grown stories (scored s c) in
        rw (t, cycle_loop)
          (elim (Bool-cases (alerts_on fl mean pstdev cfg now since warming s)) [
            | inl a ↦ Grown-alerting s c _ t g a
            | inr a ↦ Grown-quiet s c _ t g a
          ])
  ]

-- A cycle writes, for each active story with entities, in order, its scores, and an alert exactly if
-- the baseline is warm, the gap is over the threshold and the story is no rumor. The state that it
-- reports counts the alerts that the database took, and the scorer's total grows by them.
pub cycle-Scores :
    (fl : Float) (mean pstdev : List fl.F → fl.F) (cfg : ScoreConfig fl.F) (now : ℕ)
    (earliest : Option ℕ) (stories : List (StoryRow fl.F)) (scorer : Scorer)
    → let (writes, state, scorer') = cycle fl mean pstdev cfg now earliest stories scorer in
      Scores fl mean pstdev cfg now
        (since_of fl cfg now earliest)
        (is_warming fl cfg now earliest)
        stories
        writes
        state.alerts_raised
      × (scorer'.alerts ≡ scorer.alerts + state.alerts_raised)
unfolding cycle
cycle-Scores fl mean pstdev cfg now earliest stories scorer =
    let warming = is_warming fl cfg now earliest in
    let since = since_of fl cfg now earliest in
    let start : Cycle fl.F = record {
      alerted = 0;
      flagged = 0;
      scored = scorer.scored;
      writes = [];
    } in
    let g = cycle_loop-Grown fl mean pstdev cfg now since warming stories start in
    let taken : g.taken ≡ (cycle_loop fl mean pstdev cfg now since warming stories start).alerted =
      omega (arith, g.alerted) in
    (
      subst
          (λ n.
            Scores fl mean pstdev cfg now since warming stories
              (cycle_loop fl mean pstdev cfg now since warming stories start).writes n)
          taken
          (subst (λ w. Scores fl mean pstdev cfg now since warming stories w g.taken) (sym g.writes)
            g.scores),
      refl,
    )
