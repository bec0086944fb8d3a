-- ===== src/Trust/Match/Aligned.antt =====
-- services/trust/match.py, find_primary_match: which record it returns.
use pi_news_aggregator.Prelude.{
  sym, ◌∙◌, Option-cases, ℕ, Bool, true, false, ◌&&◌, not, ◌≡◌, refl, ap, inl, inr, Option, none,
  some, List, [], ◌∷◌, ◌++◌, Text, nonempty, All, Bool-cases, and_true→both, share, list_eq, nat_eq,
}
use pi_news_aggregator.Floats.{Float}
use pi_news_aggregator.Cluster.Choice.{Common, share→Common, Common→share}
use package.pi_news_aggregator.Trust.Match.{
  MatchCandidate, Trigonometry, fold_entities, haversine_km, too_far, backs, first_backing,
  find_primary_match,
}

module _ (fl : Float) (trig : Trigonometry fl.F) (geo_km_max : fl.F) (folded : List Text)
    (lat lon : Option fl.F) where
  -- If both have a place, the distance is not over the limit.
  abbrev pub Near : MatchCandidate fl.F → Type 0
  Near c =
      (la lo la' lo' : fl.F)
      → lat ≡ some la
      → lon ≡ some lo
      → c.lat ≡ some la'
      → c.lon ≡ some lo'
      → fl.ltb geo_km_max (haversine_km fl trig la lo la' lo') ≡ false

  -- A record that shares an entity with the claim, and is not too far from it.
  abbrev pub Backs : MatchCandidate fl.F → Type 0
  Backs c = Common folded c.entity_texts × Near c

  near : (c : MatchCandidate fl.F) → too_far fl trig geo_km_max lat lon c ≡ false → Near c
  unfolding too_far
  near c h la lo la' lo' p q r s = sym (rw (p, q, r, s) refl) ∙ h

  not_far : (c : MatchCandidate fl.F) → Near c → too_far fl trig geo_km_max lat lon c ≡ false
  unfolding too_far
  not_far c h = elim (Option-cases lat) [
    | inl p ↦ rw p refl
    | inr (la, p) ↦ elim (Option-cases lon) [
      | inl q ↦ rw (p, q) refl
      | inr (lo, q) ↦ elim (Option-cases c.lat) [
        | inl r ↦ rw (p, q, r) refl
        | inr (la', r) ↦ elim (Option-cases c.lon) [
          | inl s ↦ rw (p, q, r, s) refl
          | inr (lo', s) ↦ rw (p, q, r, s) (h la lo la' lo' p q r s)
        ]
      ]
    ]
  ]

  abbrev pub BacksNot : MatchCandidate fl.F → Type 0
  BacksNot c = Backs c → ⊥

  pub data Matched (candidates : List (MatchCandidate fl.F)) : Option ℕ → Type 0 where
    backed :
        (before after : List (MatchCandidate fl.F)) (c : MatchCandidate fl.F)
        → candidates ≡ before ++ c ∷ after
        → All BacksNot before
        → Backs c
        → Matched candidates (some c.item_id)
    unbacked : All BacksNot candidates → Matched candidates none

  from_not : (b : Bool) → not b ≡ true → b ≡ false
  from_not true h = cc h
  from_not false h = refl

  backs→Backs :
      (c : MatchCandidate fl.F) → backs fl trig geo_km_max folded lat lon c ≡ true → Backs c
  unfolding backs
  backs→Backs c h =
      let far = too_far fl trig geo_km_max lat lon c in
      let (a, b) = and_true→both (share folded c.entity_texts) (not far) h in
      (share→Common folded c.entity_texts a, near c (from_not far b))

  backs-BacksNot :
      (c : MatchCandidate fl.F) → backs fl trig geo_km_max folded lat lon c ≡ false → BacksNot c
  unfolding backs
  backs-BacksNot c h ((t, m, k), close) =
      cc (h, both (Common→share t folded c.entity_texts m k) (not_far c close))
    where
      both : {x y : Bool} → x ≡ true → y ≡ false → (x && not y) ≡ true
      both p q = rw p (rw q refl)

  Matched-cons :
      {o : Option ℕ} (c : MatchCandidate fl.F) (cs : List (MatchCandidate fl.F))
      → BacksNot c
      → Matched cs o
      → Matched (c ∷ cs) o
  Matched-cons c cs h (backed before after d split rest b) =
      backed (c ∷ before) after d (ap (λ l. c ∷ l) split) (h, rest) b
  Matched-cons c cs h (unbacked rest) = unbacked (h, rest)

  first_backing-Matched :
      (cs : List (MatchCandidate fl.F))
      → Matched cs (first_backing fl trig geo_km_max folded lat lon cs)
  unfolding first_backing
  first_backing-Matched [] = unbacked tt
  first_backing-Matched (c ∷ cs) = elim (Bool-cases (backs fl trig geo_km_max folded lat lon c)) [
    | inl t ↦ rw (t, first_backing) (backed [] cs c refl tt (backs→Backs c t))
    | inr f ↦
        rw (f, first_backing) (Matched-cons c cs (backs-BacksNot c f) (first_backing-Matched cs))
  ]

  none_back : (cs : List (MatchCandidate fl.F)) → nonempty folded ≡ false → All BacksNot cs
  none_back [] q = tt
  none_back (c ∷ cs) q = (λ b. no_common folded q b.0, none_back cs q)
    where
      no_common : (xs : List Text) {ys : List Text} → nonempty xs ≡ false → Common xs ys → ⊥
      no_common [] e (t, m, k) = elim m [ ]
      no_common (x ∷ xs) e h = cc e

-- The first candidate that shares a case-folded entity with the claim, and, where both have a place,
-- lies no further away than the limit by the haversine formula, backs the claim. If there is none, as always for a claim with no entity,
-- no record does.
pub find_primary_match-Matched :
    (fl : Float) (trig : Trigonometry fl.F) (casefold : Text → Text) (geo_km_max : fl.F)
    (claim_entities : List Text) (lat lon : Option fl.F) (candidates : List (MatchCandidate fl.F))
    → Matched fl trig geo_km_max
        (fold_entities casefold claim_entities)
        lat
        lon
        candidates
        (find_primary_match fl trig casefold geo_km_max claim_entities lat lon candidates)
unfolding find_primary_match
find_primary_match-Matched fl trig casefold geo_km_max claim_entities lat lon candidates =
    let folded = fold_entities casefold claim_entities in
    elim (Bool-cases (nonempty folded)) [
      | inl t ↦ rw t (first_backing-Matched fl trig geo_km_max folded lat lon candidates)
      | inr f ↦ rw f (unbacked (none_back fl trig geo_km_max folded lat lon candidates f))
    ]
