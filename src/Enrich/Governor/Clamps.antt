-- ===== src/Enrich/Governor/Clamps.antt =====
-- The clamp of services/enrich/governor.py, and the order of floats that its bounds stand on.
use pi_news_aggregator.Prelude.{true, false, not, ◌≡◌, ap, inl, inr, Bool-cases}
use pi_news_aggregator.Floats.{Float, Ordered, fmin}
use package.pi_news_aggregator.Enrich.Governor.{clamp}

module _ (fl : Float) (ord : Ordered fl) where
  abbrev pub Le : fl.F → fl.F → Type 0
  Le a b = fl.leb a b ≡ true

  unfoldable pub Within : fl.F → fl.F → fl.F → Type 0
  Within low high x = Le low x × Le x high

  pub Le_refl : (a : fl.F) → Le a a
  Le_refl a = elim (ord.le_total a a) [ inl h ↦ h | inr h ↦ h ]

  -- Not less: at least.
  ltb_false→Le : (a b : fl.F) → fl.ltb a b ≡ false → Le b a
  ltb_false→Le a b h = elim (Bool-cases (fl.leb b a)) [
    | inl t ↦ t
    | inr f ↦ cc (h, f, ord.lt_not a b, ap not f)
  ]

  ltb_true→Le : (a b : fl.F) → fl.ltb a b ≡ true → Le a b
  ltb_true→Le a b h = elim (ord.le_total a b) [
    | inl t ↦ t
    | inr f ↦ cc (h, f, ord.lt_not a b, ap not f)
  ]

  fmin-Le : (high x : fl.F) → Le (fmin fl high x) high
  fmin-Le high x = elim (Bool-cases (fl.ltb x high)) [
    | inl t ↦ rw t (ltb_true→Le x high t)
    | inr f ↦ rw f (Le_refl high)
  ]

  pub clamp-Within : (low high x : fl.F) → Le low high → Within low high (clamp fl low high x)
  unfolding clamp Within
  clamp-Within low high x h = elim (Bool-cases (fl.ltb low (fmin fl high x))) [
    | inl t ↦ rw t (ltb_true→Le low (fmin fl high x) t, fmin-Le high x)
    | inr f ↦ rw f (Le_refl low, h)
  ]

  fmin-lower : (high x y : fl.F) → Le y high → Le y x → Le y (fmin fl high x)
  fmin-lower high x y h k = elim (Bool-cases (fl.ltb x high)) [ inl t ↦ rw t k | inr f ↦ rw f h ]

  fmin-Le_right : (high x : fl.F) → Le (fmin fl high x) x
  fmin-Le_right high x = elim (Bool-cases (fl.ltb x high)) [
    | inl t ↦ rw t (Le_refl x)
    | inr f ↦ rw f (ltb_false→Le x high f)
  ]

  -- What is at most the high limit and the value is at most the clamped value.
  pub clamp-lower : (low high x y : fl.F) → Le y high → Le y x → Le y (clamp fl low high x)
  unfolding clamp
  clamp-lower low high x y h k = elim (Bool-cases (fl.ltb low (fmin fl high x))) [
    | inl t ↦ rw t (fmin-lower high x y h k)
    | inr f ↦ rw f (
        ord.le_trans y (fmin fl high x) low (fmin-lower high x y h k)
          (ltb_false→Le low (fmin fl high x) f))
  ]

  pub clamp-upper : (low high x y : fl.F) → Le low y → Le x y → Le (clamp fl low high x) y
  unfolding clamp
  clamp-upper low high x y h k = elim (Bool-cases (fl.ltb low (fmin fl high x))) [
    | inl t ↦ rw t (ord.le_trans (fmin fl high x) x y (fmin-Le_right high x) k)
    | inr f ↦ rw f h
  ]

  -- The sum with a number that is not negative, or not positive.
  pub add-up : (a b : fl.F) → Le (fl.dec 0 0) b → Le a (fl.add a b)
  add-up a b h =
      ord.le_trans a (fl.add a (fl.dec 0 0)) (fl.add a b) (ord.add_zero_up a)
        (ord.add_mono a (fl.dec 0 0) b h)

  pub add-down : (a b : fl.F) → Le b (fl.dec 0 0) → Le (fl.add a b) a
  add-down a b h =
      ord.le_trans (fl.add a b) (fl.add a (fl.dec 0 0)) a (ord.add_mono a b (fl.dec 0 0) h)
        (ord.add_zero_down a)
