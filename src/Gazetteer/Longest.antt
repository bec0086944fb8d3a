-- ===== src/Gazetteer/Longest.antt =====
-- libs/gazetteer/matcher.py, Gazetteer.match: which phrases of a text it finds.
use pi_news_aggregator.Prelude.{
  ℕ, zero, suc, ◌≤◌, min, ◌≡◌, inl, inr, Option, none, some, List, [], ◌∷◌, Text, length, drop,
  length-drop, nat_eq, list_eq, Option-cases, Longest, longest_of-Longest, Longest-positive, arith,
  subst,
}
use pi_news_aggregator.Floats.{Float}
use pi_news_aggregator.Schema.{Entity}
use package.pi_news_aggregator.Gazetteer.{
  GazEntry, Gazetteer, to_entity, phrase, words, longest, match_loop, match,
}

module _ (fl : Float) where
  abbrev pub limit_of : Gazetteer fl → List Text → ℕ
  limit_of g tokens = min g.max_words (length tokens)

  -- A reading of the words from left to right. At each place the longest phrase that the dictionary
  -- has is taken and the reading goes on behind it. Where there is none, one word is passed.
  pub data Scan (g : Gazetteer fl) : List Text → Option (List (Entity fl.F)) → Type 0 where
    ended : Scan g [] (some [])
    hit :
        {t : Text} {ts : List Text} {e : Entity fl.F} {es : List (Entity fl.F)}
        (entry : GazEntry fl.F) (n : ℕ)
        → Longest (phrase fl g.gaz (t ∷ ts)) (limit_of g (t ∷ ts)) (some (entry, n))
        → to_entity fl entry ≡ some e
        → Scan g (drop n (t ∷ ts)) (some es)
        → Scan g (t ∷ ts) (some (e ∷ es))
    passed :
        {t : Text} {ts : List Text} {r : Option (List (Entity fl.F))}
        → Longest (phrase fl g.gaz (t ∷ ts)) (limit_of g (t ∷ ts)) none
        → Scan g ts r
        → Scan g (t ∷ ts) r
    -- An entry that is no entity raises.
    broken :
        {t : Text} {ts : List Text} (entry : GazEntry fl.F) (n : ℕ)
        → Longest (phrase fl g.gaz (t ∷ ts)) (limit_of g (t ∷ ts)) (some (entry, n))
        → to_entity fl entry ≡ none
        → Scan g (t ∷ ts) none
    broken_later :
        {t : Text} {ts : List Text} {e : Entity fl.F} (entry : GazEntry fl.F) (n : ℕ)
        → Longest (phrase fl g.gaz (t ∷ ts)) (limit_of g (t ∷ ts)) (some (entry, n))
        → to_entity fl entry ≡ some e
        → Scan g (drop n (t ∷ ts)) none
        → Scan g (t ∷ ts) none

  steps_on : (n : ℕ) (t : Text) (ts : List Text) → 1 ≤ n → length (drop n (t ∷ ts)) ≤ length ts
  steps_on zero t ts p = absurd (omega (arith, p))
  steps_on (suc n) t ts p = omega (arith, length-drop n ts)

  -- With as much fuel as there are words, the loop makes a complete reading.
  match_loop-Scan :
      (g : Gazetteer fl) (fuel : ℕ) (tokens : List Text)
      → length tokens ≤ fuel
      → Scan g tokens (match_loop fl g fuel tokens)
  unfolding match_loop
  match_loop-Scan g fuel [] h = ended
  match_loop-Scan g zero (t ∷ ts) h = absurd (omega (arith, h))
  match_loop-Scan g (suc fuel) (t ∷ ts) h =
      let limit = limit_of g (t ∷ ts) in
      let best : Longest (phrase fl g.gaz (t ∷ ts)) limit (longest fl g.gaz limit (t ∷ ts)) =
        unfold longest in longest_of-Longest (phrase fl g.gaz (t ∷ ts)) limit in
      elim (Option-cases (longest fl g.gaz limit (t ∷ ts))) [
        | inl q ↦
            rw (q, match_loop)
              (passed (subst (λ o. Longest (phrase fl g.gaz (t ∷ ts)) limit o) q best)
                (match_loop-Scan g fuel ts (omega (arith, h))))
        | inr ((entry, n), q) ↦
            let here' = subst (λ o. Longest (phrase fl g.gaz (t ∷ ts)) limit o) q best in
            let rest = match_loop-Scan g fuel (drop n (t ∷ ts)) (
              omega (
                arith,
                h,
                steps_on n t ts (Longest-positive (phrase fl g.gaz (t ∷ ts)) limit here'),
              )) in
            rw (q, match_loop)
              (elim (Option-cases (to_entity fl entry)) [
                | inl bad ↦ rw (bad, match_loop) (broken entry n here' bad)
                | inr (e, good) ↦
                    rw (good, match_loop)
                      (elim (Option-cases (match_loop fl g fuel (drop n (t ∷ ts)))) [
                        | inl k ↦
                            rw (k, match_loop)
                              (broken_later entry n here' good
                                (subst (λ o. Scan g (drop n (t ∷ ts)) o) k rest))
                        | inr (es, k) ↦
                            rw (k, match_loop)
                              (hit entry n here' good
                                (subst (λ o. Scan g (drop n (t ∷ ts)) o) k rest))
                      ])
              ])
      ]

  -- `match` reads the words of the lower-cased text from left to right to their end: at each word
  -- the longest phrase of the dictionary is a hit and its words are not read again, and a word is
  -- passed only if no phrase begins there. It raises only on an entry that is no entity.
  pub match-Scan :
      (lower : Text → Text) (g : Gazetteer fl) (text : Text)
      → Scan g (words (lower text)) (match fl lower g text)
  unfolding match
  match-Scan lower g text =
      match_loop-Scan g (length (words (lower text))) (words (lower text)) (omega arith)
