-- ===== src/Trust/Origins/Least.antt =====
-- The source that stands for an origin: the least one, in a list without repeats.
use pi_news_aggregator.Prelude.{
  some_inj, In, here, there, In-append, In-one, suc, ◌≤◌, ◌≡◌, refl, sym, ◌∙◌, ap, ◌⊎◌, inl, inr,
  Option, none, some, List, [], ◌∷◌, ◌++◌, length, length-append, Distinct, Distinct-snoc, Text,
  arith, subst, contains, In→contains, nat_eq, list_eq, if◌then◌else◌, Option-cases, Bool-cases,
  text_leb,
}
use pi_news_aggregator.Trust.Origins.{least}

pub least-In : (l : List Text) (s : Text) → least l ≡ some s → In s l
unfolding least
least-In [] s h = cc
least-In (x ∷ xs) s h = elim (Option-cases (least xs)) [
  | inl q ↦ here (some_inj (sym h ∙ rw q refl))
  | inr (t, q) ↦ elim (Bool-cases (text_leb x t)) [
    | inl b ↦ here (some_inj (sym h ∙ rw q (rw b refl)))
    | inr b ↦
        there (subst (λ z. In z xs) (some_inj (sym (sym h ∙ rw q (rw b refl)))) (least-In xs t q))
  ]
]

-- if comp_sources: sources.add(comp_sources[0])
abbrev pub add_least : Option Text → List Text → List Text
add_least o l = elim o [ none ↦ l | some s ↦ if contains s l then l else l ++ s ∷ [] ]

pub add_least-Distinct : (o : Option Text) (l : List Text) → Distinct l → Distinct (add_least o l)
add_least-Distinct none l d = d
add_least-Distinct (some s) l d = elim (Bool-cases (contains s l)) [
  | inl t ↦ rw t d
  | inr f ↦ rw f (Distinct-snoc l s d (λ m. cc (f, In→contains s l m)))
]

pub add_least-In :
    (o : Option Text) (l : List Text) (s : Text) → In s (add_least o l) → In s l ⊎ (o ≡ some s)
add_least-In none l s m = inl m
add_least-In (some t) l s m = elim (Bool-cases (contains t l)) [
  | inl b ↦ inl (subst (λ c. In s (if c then l else l ++ t ∷ [])) b m)
  | inr b ↦ elim (In-append l _ (subst (λ c. In s (if c then l else l ++ t ∷ [])) b m)) [
    | inl k ↦ inl k
    | inr k ↦ inr (ap some (sym (In-one k)))
  ]
]

pub length-add_least : (o : Option Text) (l : List Text) → length (add_least o l) ≤ suc (length l)
length-add_least none l = omega arith
length-add_least (some s) l = elim (Bool-cases (contains s l)) [
  | inl t ↦ rw t (omega arith)
  | inr f ↦ rw f (omega (arith, length-append l (s ∷ [])))
]
