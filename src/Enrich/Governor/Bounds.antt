-- ===== src/Enrich/Governor/Bounds.antt =====
-- services/enrich/governor.py: the threshold and the decisions over any sequence of items.
use pi_news_aggregator.Prelude.{
  ◌⊎◌, ◌≢◌, Bool, true, false, ◌≡◌, refl, inl, inr, some, List, [], ◌∷◌, Bool-cases,
}
use pi_news_aggregator.Floats.{Float, Ordered}
use pi_news_aggregator.Schema.{SourceClass, authoritative, primary, social, mainstream, local_news}
use package.pi_news_aggregator.Enrich.Governor.{
  GovernorConfig, AdmissionGovernor, bypasses, budget_per_s, make_governor, raw_step, clamp, step,
  next_rate, admit,
}
use pi_news_aggregator.Enrich.Governor.Clamps.{
  Le, Within, Le_refl, clamp-Within, clamp-lower, clamp-upper, add-up, add-down,
}

bypassing : (c : SourceClass) → bypasses c ≡ true → (c ≡ authoritative) ⊎ (c ≡ primary)
unfolding bypasses
bypassing authoritative h = inl refl
bypassing primary h = inr refl
bypassing social h = cc h
bypassing mainstream h = cc h
bypassing local_news h = cc h

governed_class : (c : SourceClass) → bypasses c ≡ false → (c ≢ authoritative) × (c ≢ primary)
unfolding bypasses
governed_class authoritative h = cc h
governed_class primary h = cc h
governed_class social h = ((λ q. cc q), (λ q. cc q))
governed_class mainstream h = ((λ q. cc q), (λ q. cc q))
governed_class local_news h = ((λ q. cc q), (λ q. cc q))

module _ (fl : Float) (ord : Ordered fl) where
  -- A configuration that makes sense: the limits are in order and no parameter is negative.
  pub record IsConfig (cfg : GovernorConfig fl.F) : Type 0 where
    pub limits : Le fl ord cfg.theta_floor cfg.theta_ceiling
    pub slew : Le fl ord (fl.dec 0 0) cfg.slew_max
    pub tighten : Le fl ord (fl.dec 0 0) cfg.additive_step
    pub relax : Le fl ord (fl.dec 0 0) cfg.relax_rate

  abbrev pub hi : GovernorConfig fl.F → fl.F
  hi cfg = fl.mul (budget_per_s fl cfg) (fl.add (fl.dec 1 0) cfg.deadband)

  abbrev pub lo : GovernorConfig fl.F → fl.F
  lo cfg = fl.mul (budget_per_s fl cfg) (fl.sub (fl.dec 1 0) cfg.deadband)

  -- The threshold after an update, against the threshold before it and the rate it was made for.
  pub record Steered (cfg : GovernorConfig fl.F) (theta rate theta' : fl.F) : Type 0 where
    pub within : Within fl ord cfg.theta_floor cfg.theta_ceiling theta'
    pub slew_down : Le fl ord (fl.add theta (fl.neg cfg.slew_max)) theta'
    pub slew_up : Le fl ord theta' (fl.add theta cfg.slew_max)
    pub tightens : fl.ltb (hi cfg) rate ≡ true → Le fl ord theta theta'
    pub relaxes :
        fl.ltb (hi cfg) rate ≡ false → fl.ltb rate (lo cfg) ≡ true → Le fl ord theta' theta
    pub holds :
        fl.ltb (hi cfg) rate ≡ false
        → fl.ltb rate (lo cfg) ≡ false
        → Le fl ord theta theta' × Le fl ord theta' theta

  -- The three cases of the step before the slew limit.
  raw_step-over :
      (cfg : GovernorConfig fl.F) (gov : AdmissionGovernor fl.F)
      → fl.ltb (hi cfg) gov.rate ≡ true
      → raw_step fl cfg gov ≡ cfg.additive_step
  unfolding raw_step
  raw_step-over cfg gov h = rw h refl

  raw_step-under :
      (cfg : GovernorConfig fl.F) (gov : AdmissionGovernor fl.F)
      → fl.ltb (hi cfg) gov.rate ≡ false
      → fl.ltb gov.rate (lo cfg) ≡ true
      → raw_step fl cfg gov ≡ fl.mul (fl.neg (fl.sub gov.theta cfg.theta_floor)) cfg.relax_rate
  unfolding raw_step
  raw_step-under cfg gov h k = rw h (rw k refl)

  raw_step-band :
      (cfg : GovernorConfig fl.F) (gov : AdmissionGovernor fl.F)
      → fl.ltb (hi cfg) gov.rate ≡ false
      → fl.ltb gov.rate (lo cfg) ≡ false
      → raw_step fl cfg gov ≡ fl.dec 0 0
  unfolding raw_step
  raw_step-band cfg gov h k = rw h (rw k refl)

  module _ (cfg : GovernorConfig fl.F) (valid : IsConfig cfg) (gov : AdmissionGovernor fl.F)
      (inside : Within fl ord cfg.theta_floor cfg.theta_ceiling gov.theta) where
    slew_neg : Le fl ord (fl.neg cfg.slew_max) (fl.dec 0 0)
    slew_neg = ord.neg_sign cfg.slew_max valid.slew

    slew_ordered : Le fl ord (fl.neg cfg.slew_max) cfg.slew_max
    slew_ordered = ord.le_trans (fl.neg cfg.slew_max) (fl.dec 0 0) cfg.slew_max slew_neg valid.slew

    abbrev limited : fl.F
    limited = clamp fl (fl.neg cfg.slew_max) cfg.slew_max (raw_step fl cfg gov)

    limited-Within : Within fl ord (fl.neg cfg.slew_max) cfg.slew_max limited
    limited-Within =
        clamp-Within fl ord (fl.neg cfg.slew_max) cfg.slew_max (raw_step fl cfg gov) slew_ordered

    limited-up : Le fl ord (fl.dec 0 0) (raw_step fl cfg gov) → Le fl ord (fl.dec 0 0) limited
    limited-up h =
        clamp-lower fl ord (fl.neg cfg.slew_max) cfg.slew_max (raw_step fl cfg gov) (fl.dec 0 0)
          valid.slew h

    limited-down : Le fl ord (raw_step fl cfg gov) (fl.dec 0 0) → Le fl ord limited (fl.dec 0 0)
    limited-down h =
        clamp-upper fl ord (fl.neg cfg.slew_max) cfg.slew_max (raw_step fl cfg gov) (fl.dec 0 0)
          slew_neg h

    rises :
        Le fl ord (fl.dec 0 0) (raw_step fl cfg gov) → Le fl ord gov.theta (step fl cfg gov).theta
    unfolding step Within
    rises h =
        clamp-lower fl ord cfg.theta_floor cfg.theta_ceiling (fl.add gov.theta limited) gov.theta
          inside.1 (add-up fl ord gov.theta limited (limited-up h))

    falls :
        Le fl ord (raw_step fl cfg gov) (fl.dec 0 0) → Le fl ord (step fl cfg gov).theta gov.theta
    unfolding step Within
    falls h =
        clamp-upper fl ord cfg.theta_floor cfg.theta_ceiling (fl.add gov.theta limited) gov.theta
          inside.0 (add-down fl ord gov.theta limited (limited-down h))

    relaxing :
        Le fl ord (fl.mul (fl.neg (fl.sub gov.theta cfg.theta_floor)) cfg.relax_rate) (fl.dec 0 0)
    unfolding Within
    relaxing =
        ord.mul_sign (fl.neg (fl.sub gov.theta cfg.theta_floor)) cfg.relax_rate
          (ord.neg_sign (fl.sub gov.theta cfg.theta_floor)
            (ord.sub_sign gov.theta cfg.theta_floor inside.0))
          valid.relax

    step-Steered : Steered cfg gov.theta gov.rate (step fl cfg gov).theta
    unfolding step Within
    step-Steered = record {
      within =
          clamp-Within fl ord cfg.theta_floor cfg.theta_ceiling (fl.add gov.theta limited)
            valid.limits;
      slew_down =
          let low = fl.add gov.theta (fl.neg cfg.slew_max) in
          clamp-lower fl ord cfg.theta_floor cfg.theta_ceiling (fl.add gov.theta limited) low
            (ord.le_trans low gov.theta cfg.theta_ceiling
              (add-down fl ord gov.theta (fl.neg cfg.slew_max) slew_neg) inside.1)
            (ord.add_mono gov.theta (fl.neg cfg.slew_max) limited limited-Within.0);
      slew_up =
          let high = fl.add gov.theta cfg.slew_max in
          clamp-upper fl ord cfg.theta_floor cfg.theta_ceiling (fl.add gov.theta limited) high
            (ord.le_trans cfg.theta_floor gov.theta high inside.0
              (add-up fl ord gov.theta cfg.slew_max valid.slew))
            (ord.add_mono gov.theta limited cfg.slew_max limited-Within.1);
      tightens = λ h. rises (rw (raw_step-over cfg gov h) valid.tighten);
      relaxes = λ h k. falls (rw (raw_step-under cfg gov h k) relaxing);
      holds = λ h k. (
        rises (rw (raw_step-band cfg gov h k) (Le_refl fl ord (fl.dec 0 0))),
        falls (rw (raw_step-band cfg gov h k) (Le_refl fl ord (fl.dec 0 0))),
      );
    }

  -- What one call of `admit` answers and leaves.
  pub data Admission (cfg : GovernorConfig fl.F) (relevance : fl.F) (c : SourceClass) (now : fl.F)
      (gov : AdmissionGovernor fl.F) : Bool × AdmissionGovernor fl.F → Type 0 where
    passes : (c ≡ authoritative) ⊎ (c ≡ primary) → Admission cfg relevance c now gov (true, gov)
    governed :
        (gov' : AdmissionGovernor fl.F)
        → c ≢ authoritative
        → c ≢ primary
        → gov'.last_t ≡ some now
        → gov'.rate ≡ next_rate fl cfg (fl.leb gov.theta relevance) now gov
        → Steered cfg gov.theta gov'.rate gov'.theta
        → Admission cfg relevance c now gov (fl.leb gov.theta relevance, gov')

  step-moved :
      (cfg : GovernorConfig fl.F) (g : AdmissionGovernor fl.F)
      → Steered cfg g.theta g.rate (step fl cfg g).theta
      → Steered cfg g.theta (step fl cfg g).rate (step fl cfg g).theta
  unfolding step
  step-moved cfg g s = s

  -- In a sensible configuration, with the threshold within its limits: an authoritative or primary
  -- item is admitted and changes nothing. Any other is admitted exactly if its relevance reaches the
  -- threshold before the call. The new threshold is within the limits and at most `slew_max` away;
  -- it does not fall when the new rate is over the band, does not rise when it is under, and stays
  -- when it is in the band.
  pub admit-Admission :
      (cfg : GovernorConfig fl.F) (relevance : fl.F) (c : SourceClass) (now : fl.F)
      (gov : AdmissionGovernor fl.F)
      → IsConfig cfg
      → Within fl ord cfg.theta_floor cfg.theta_ceiling gov.theta
      → Admission cfg relevance c now gov (admit fl cfg relevance c now gov)
  unfolding admit
  admit-Admission cfg relevance c now gov valid inside = elim (Bool-cases (bypasses c)) [
    | inl t ↦ rw (t, admit) (passes (bypassing c t))
    | inr f ↦
        let gov' : AdmissionGovernor fl.F = record {
          theta = gov.theta;
          rate = next_rate fl cfg (fl.leb gov.theta relevance) now gov;
          last_t = some now;
        } in
        rw (f, admit)
          (governed (step fl cfg gov') (governed_class c f).0 (governed_class c f).1
            (unfold step in refl) (unfold step in refl)
            (step-moved cfg gov' (step-Steered cfg valid gov' inside)))
  ]

  -- The decisions on a sequence of items, each with its relevance, class and time.
  unfoldable pub admit_all :
      GovernorConfig fl.F
      → List (fl.F × SourceClass × fl.F)
      → AdmissionGovernor fl.F
      → List Bool × AdmissionGovernor fl.F
  unfolding admit
  admit_all cfg [] gov = ([], gov)
  admit_all cfg ((relevance, c, now) ∷ events) gov =
      let (d, gov') = admit fl cfg relevance c now gov in
      let (ds, gov'') = admit_all cfg events gov' in (d ∷ ds, gov'')

  Admission-Within :
      {cfg : GovernorConfig fl.F} {relevance : fl.F} {c : SourceClass} {now : fl.F}
      {gov : AdmissionGovernor fl.F} {after : Bool × AdmissionGovernor fl.F}
      → Within fl ord cfg.theta_floor cfg.theta_ceiling gov.theta
      → Admission cfg relevance c now gov after
      → Within fl ord cfg.theta_floor cfg.theta_ceiling after.1.theta
  Admission-Within inside (passes t) = inside
  Admission-Within inside (governed gov' f f' q r s) = s.within

  admit_all-keeps :
      (cfg : GovernorConfig fl.F) (events : List (fl.F × SourceClass × fl.F))
      (gov : AdmissionGovernor fl.F)
      → IsConfig cfg
      → Within fl ord cfg.theta_floor cfg.theta_ceiling gov.theta
      → Within fl ord cfg.theta_floor cfg.theta_ceiling (admit_all cfg events gov).1.theta
  unfolding admit_all
  admit_all-keeps cfg [] gov valid inside = inside
  admit_all-keeps cfg ((relevance, c, now) ∷ events) gov valid inside =
      admit_all-keeps cfg events (admit fl cfg relevance c now gov).1 valid
        (Admission-Within inside (admit-Admission cfg relevance c now gov valid inside))

  -- In a sensible configuration, the threshold of a new governor is within its limits after any
  -- sequence of items.
  pub admit_all-Within :
      (cfg : GovernorConfig fl.F) (events : List (fl.F × SourceClass × fl.F))
      → IsConfig cfg
      → Within fl ord cfg.theta_floor cfg.theta_ceiling
          (admit_all cfg events (make_governor fl cfg)).1.theta
  unfolding make_governor Within
  admit_all-Within cfg events valid =
      admit_all-keeps cfg events (make_governor fl cfg) valid
        (Le_refl fl ord cfg.theta_floor, valid.limits)
