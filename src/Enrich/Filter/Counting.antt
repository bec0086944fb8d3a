-- ===== src/Enrich/Filter/Counting.antt =====
-- services/enrich/filter.py: what the tally counts.
use pi_news_aggregator.Prelude.{
  ℕ, suc, ◌+◌, ◌≡◌, ap, inl, inr, List, [], ◌∷◌, Text, ◌==◌, ==_true, ==_false→ne, Dict, put,
  get-put_self, get-put_ne, Bool-cases, if◌then◌else◌, list_eq, nat_eq, arith,
}
use pi_news_aggregator.Schema.{Entity}
use package.pi_news_aggregator.Enrich.Filter.{or_zero, count_of, count_mentions}

-- The hits whose case-folded text is `k`.
unfoldable pub occurrences : {F : Type 0} → (Text → Text) → Text → List (Entity F) → ℕ
occurrences casefold k [] = 0
occurrences casefold k (ent ∷ hits) =
    (if k == casefold ent.text then 1 else 0) + occurrences casefold k hits

count_of-put :
    (k j : Text) (mentions : Dict Text ℕ)
    → count_of k (put j (suc (count_of j mentions)) mentions)
      ≡ (if k == j then 1 else 0) + count_of k mentions
unfolding count_of
count_of-put k j mentions = elim (Bool-cases (k == j)) [
  | inl t ↦ rw t (
      rw (==_true k j t)
        (omega (arith, ap or_zero (get-put_self j (suc (count_of j mentions)) mentions))))
  | inr f ↦ rw f (
      omega (
        arith,
        ap or_zero (get-put_ne j k (suc (count_of j mentions)) mentions (==_false→ne k j f)),
      ))
]

-- Each key of the counter grows by the number of hits that fold to it, repeated ones included, and
-- no other key changes.
pub count_mentions-count_of :
    {F : Type 0} (casefold : Text → Text) (hits : List (Entity F)) (mentions : Dict Text ℕ)
    (k : Text)
    → count_of k (count_mentions casefold hits mentions)
      ≡ occurrences casefold k hits + count_of k mentions
unfolding count_mentions occurrences
count_mentions-count_of casefold [] mentions k = omega arith
count_mentions-count_of casefold (ent ∷ hits) mentions k =
    let j = casefold ent.text in
    omega (
      arith,
      count_mentions-count_of casefold hits (put j (suc (count_of j mentions)) mentions) k,
      count_of-put k j mentions,
    )
