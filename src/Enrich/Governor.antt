-- ===== src/Enrich/Governor.antt =====
-- services/enrich/governor.py. The clock and `random.random()` are arguments of the calls that read
-- them.
pub mod Clamps
pub mod Bounds
use pi_news_aggregator.Prelude.{ℕ, Bool, true, false, ◌&&◌, Option, none, some, if◌then◌else◌}
use pi_news_aggregator.Floats.{Float, fmax, fmin}
use pi_news_aggregator.Schema.{SourceClass, authoritative, primary, social}

pub record GovernorConfig (F : Type 0) : Type 0 where
  pub cap_per_day : F
  pub ewma_halflife_s : F
  pub deadband : F
  pub theta_floor : F
  pub theta_ceiling : F
  pub additive_step : F
  pub relax_rate : F
  pub slew_max : F
  pub explore_rate : F

-- `cfg` is fixed for the life of the object, and an argument here.
pub record AdmissionGovernor (F : Type 0) : Type 0 where
  pub theta : F
  pub rate : F
  pub last_t : Option F

-- source_class in (AUTHORITATIVE, PRIMARY)
unfoldable pub bypasses : SourceClass → Bool
bypasses authoritative = true
bypasses primary = true
bypasses _ = false

module _ (fl : Float) where
  abbrev pub default_config : GovernorConfig fl.F
  default_config = record {
    cap_per_day = fl.dec 400000 0;
    ewma_halflife_s = fl.dec 600 0;
    deadband = fl.dec 10 2;
    theta_floor = fl.dec 0 0;
    theta_ceiling = fl.dec 99 2;
    additive_step = fl.dec 2 2;
    relax_rate = fl.dec 5 2;
    slew_max = fl.dec 5 2;
    explore_rate = fl.dec 2 2;
  }

  unfoldable pub budget_per_s : GovernorConfig fl.F → fl.F
  budget_per_s cfg = fl.div cfg.cap_per_day (fl.dec 86400 0)

  -- AdmissionGovernor(cfg)
  unfoldable pub make_governor : GovernorConfig fl.F → AdmissionGovernor fl.F
  make_governor cfg = record { theta = cfg.theta_floor; rate = fl.dec 0 0; last_t = none }

  unfoldable pub sampling_active : GovernorConfig fl.F → AdmissionGovernor fl.F → Bool
  sampling_active cfg gov = fl.ltb (fl.add cfg.theta_floor (fl.dec 1 9)) gov.theta

  unfoldable pub at_ceiling : GovernorConfig fl.F → AdmissionGovernor fl.F → Bool
  at_ceiling cfg gov = fl.leb (fl.sub cfg.theta_ceiling (fl.dec 1 9)) gov.theta

  -- `random` is the number that random.random() returns.
  unfoldable pub explore : GovernorConfig fl.F → fl.F → AdmissionGovernor fl.F → Bool
  unfolding at_ceiling
  explore cfg random gov = if at_ceiling cfg gov then false else fl.ltb random cfg.explore_rate

  unfoldable pub decay : GovernorConfig fl.F → fl.F → fl.F
  decay cfg dt = fl.exp (fl.div (fl.mul (fl.neg dt) (fl.log (fl.dec 2 0))) cfg.ewma_halflife_s)

  -- The step before the slew limit.
  unfoldable pub raw_step : GovernorConfig fl.F → AdmissionGovernor fl.F → fl.F
  unfolding budget_per_s
  raw_step cfg gov =
      let budget = budget_per_s cfg in
      let hi = fl.mul budget (fl.add (fl.dec 1 0) cfg.deadband) in
      let lo = fl.mul budget (fl.sub (fl.dec 1 0) cfg.deadband) in
      if fl.ltb hi gov.rate
      then cfg.additive_step
      else if fl.ltb gov.rate lo
      then fl.mul (fl.neg (fl.sub gov.theta cfg.theta_floor)) cfg.relax_rate
      else fl.dec 0 0

  -- max(low, min(high, x))
  unfoldable pub clamp : fl.F → fl.F → fl.F → fl.F
  clamp low high x = fmax fl low (fmin fl high x)

  unfoldable pub step : GovernorConfig fl.F → AdmissionGovernor fl.F → AdmissionGovernor fl.F
  step cfg gov =
      let limited = clamp (fl.neg cfg.slew_max) cfg.slew_max (raw_step cfg gov) in
      record {
        theta = clamp cfg.theta_floor cfg.theta_ceiling (fl.add gov.theta limited);
        rate = gov.rate;
        last_t = gov.last_t;
      }

  unfoldable pub next_rate : GovernorConfig fl.F → Bool → fl.F → AdmissionGovernor fl.F → fl.F
  unfolding decay
  next_rate cfg admitted now gov = elim gov.last_t [
    | none ↦ gov.rate
    | some last ↦
        let dt = fmax fl (fl.sub now last) (fl.dec 1 6) in
        let keep = decay cfg dt in
        let sample = if admitted then fl.div (fl.dec 1 0) dt else fl.dec 0 0 in
        fl.add (fl.mul keep gov.rate) (fl.mul (fl.sub (fl.dec 1 0) keep) sample)
  ]

  unfoldable pub admit :
      GovernorConfig fl.F
      → fl.F
      → SourceClass
      → fl.F
      → AdmissionGovernor fl.F
      → Bool × AdmissionGovernor fl.F
  unfolding bypasses
  admit cfg relevance source_class now gov =
      let admitted = fl.leb gov.theta relevance in
      if bypasses source_class then (true, gov) else (
        admitted,
        step cfg (record {
          theta = gov.theta;
          rate = next_rate cfg admitted now gov;
          last_t = some now;
        }),
      )
