-- ===== src/Trust/Wire/Priority.antt =====
-- Which credit `wire_ref` returns.
use pi_news_aggregator.Prelude.{
  ℕ, ◌≡◌, refl, ap, inl, inr, Bool, false, none, some, Option-cases, Bool-cases, List, [], ◌∷◌,
  ◌++◌, Text, take, has_infix, All, nat_eq, arith,
}
use pi_news_aggregator.Trust.Wire.Bounded.{
  Contains, infix→Contains, Contains→infix, AnyStands, any→AnyStands, AnyStands→any,
}
use pi_news_aggregator.Trust.Wire.{
  dateline_window, dateline, credit, first_tag, first_credit, any_bounded, wire_ref,
}

-- The first entry that satisfies `P`: no entry before it does.
pub data FirstPassing {A : Type 0} (P : A → Type 0) (value : A → Text)
    : List A → Text → Type 0 where
  at :
      {l : List A} {v : Text} (before : List A) (a : A) (after : List A)
      → l ≡ before ++ a ∷ after
      → All (λ b. P b → ⊥) before
      → P a
      → v ≡ value a
      → FirstPassing P value l v

FirstPassing-cons :
    {A : Type 0} {P : A → Type 0} {value : A → Text} {l : List A} {v : Text} (x : A)
    → (P x → ⊥)
    → FirstPassing P value l v
    → FirstPassing P value (x ∷ l) v
FirstPassing-cons x f (at before a after e none_before t q) =
    at (x ∷ before) a after (ap (λ k. x ∷ k) e) (f, none_before) t q

abbrev pub TagIn : Text → Text × Text → Type 0
TagIn head e = Contains head e.1

abbrev slug_of : {B : Type 0} → Text × B → Text
slug_of e = e.0

no_tag : (head pat : Text) → has_infix head pat ≡ false → Contains head pat → ⊥
no_tag head pat f k = cc (f, Contains→infix head pat k)

first_tag-some :
    (head : Text) (l : List (Text × Text)) (s : Text)
    → first_tag head l ≡ some s
    → FirstPassing (TagIn head) slug_of l s
unfolding first_tag
first_tag-some head [] s h = cc
first_tag-some head ((slug, pat) ∷ l) s h = elim (Bool-cases (has_infix head pat)) [
  | inl t ↦ at [] (slug, pat) l refl tt (infix→Contains head pat t) (ground (arith, rw t at h))
  | inr f ↦ FirstPassing-cons (slug, pat) (no_tag head pat f) (first_tag-some head l s (rw f at h))
]

first_tag-none :
    (head : Text) (l : List (Text × Text)) → first_tag head l ≡ none → All (λ e. TagIn head e → ⊥) l
unfolding first_tag
first_tag-none head [] h = tt
first_tag-none head ((slug, pat) ∷ l) h = elim (Bool-cases (has_infix head pat)) [
  | inl t ↦ absurd (ground (arith, rw t at h))
  | inr f ↦ (no_tag head pat f, first_tag-none head l (rw f at h))
]

module _ (is_word : ℕ → Bool) where
  abbrev pub CreditIn : Text → Text × List Text → Type 0
  CreditIn text e = AnyStands is_word text e.1

  no_credit :
      (text : Text) (pats : List Text)
      → any_bounded is_word text pats ≡ false
      → AnyStands is_word text pats
      → ⊥
  no_credit text pats f k = cc (f, AnyStands→any is_word text pats k)

  first_credit-some :
      (text : Text) (l : List (Text × List Text)) (s : Text)
      → first_credit is_word text l ≡ some s
      → FirstPassing (CreditIn text) slug_of l s
  unfolding first_credit
  first_credit-some text [] s h = cc
  first_credit-some text ((slug, pats) ∷ l) s h =
      elim (Bool-cases (any_bounded is_word text pats)) [
        | inl t ↦
            at [] (slug, pats) l refl tt (any→AnyStands is_word text pats t)
              (ground (arith, rw t at h))
        | inr f ↦
            FirstPassing-cons (slug, pats) (no_credit text pats f)
              (first_credit-some text l s (rw f at h))
      ]

  first_credit-none :
      (text : Text) (l : List (Text × List Text))
      → first_credit is_word text l ≡ none
      → All (λ e. CreditIn text e → ⊥) l
  unfolding first_credit
  first_credit-none text [] h = tt
  first_credit-none text ((slug, pats) ∷ l) h = elim (Bool-cases (any_bounded is_word text pats)) [
    | inl t ↦ absurd (ground (arith, rw t at h))
    | inr f ↦ (no_credit text pats f, first_credit-none text l (rw f at h))
  ]

  -- What a text credits: the first tag of the table that stands in the dateline window; without
  -- one, the first credit of the table that stands between word boundaries anywhere in the text;
  -- without either, nothing.
  pub data Credits (text : Text) (slug : Text) : Type 0 where
    empty : text ≡ [] → slug ≡ [] → Credits text slug
    tagged :
        FirstPassing (TagIn (take dateline_window text)) slug_of dateline slug → Credits text slug
    named :
        All (λ e. TagIn (take dateline_window text) e → ⊥) dateline
        → FirstPassing (CreditIn text) slug_of credit slug
        → Credits text slug
    neither :
        All (λ e. TagIn (take dateline_window text) e → ⊥) dateline
        → All (λ e. CreditIn text e → ⊥) credit
        → slug ≡ []
        → Credits text slug

  wire_ref_tag :
      (c : ℕ) (cs slug : Text)
      → first_tag (take dateline_window (c ∷ cs)) dateline ≡ some slug
      → wire_ref is_word (c ∷ cs) ≡ slug
  unfolding wire_ref
  wire_ref_tag c cs slug h = rw h refl

  wire_ref_credit :
      (c : ℕ) (cs slug : Text)
      → first_tag (take dateline_window (c ∷ cs)) dateline ≡ none
      → first_credit is_word (c ∷ cs) credit ≡ some slug
      → wire_ref is_word (c ∷ cs) ≡ slug
  wire_ref_credit c cs slug h k = unfold wire_ref in rw h (rw k refl)

  wire_ref_neither :
      (c : ℕ) (cs : Text)
      → first_tag (take dateline_window (c ∷ cs)) dateline ≡ none
      → first_credit is_word (c ∷ cs) credit ≡ none
      → wire_ref is_word (c ∷ cs) ≡ []
  wire_ref_neither c cs h k = unfold wire_ref in rw h (rw k refl)

  -- `wire_ref` returns the slug of the first entry of the table of datelines whose literal stands
  -- anywhere in the first 160 characters; without one, the slug of the first entry of the table of
  -- credits one of whose literals stands in the text with a word boundary on either side; without
  -- either, and for the empty text, nothing.
  pub wire_ref-Credits : (text : Text) → Credits text (wire_ref is_word text)
  wire_ref-Credits [] = empty refl (unfold wire_ref in refl)
  wire_ref-Credits (c ∷ cs) =
      elim (Option-cases (first_tag (take dateline_window (c ∷ cs)) dateline)) [
        | inr (slug, h) ↦ rw (wire_ref_tag c cs slug h) (tagged (first_tag-some _ dateline slug h))
        | inl h ↦ elim (Option-cases (first_credit is_word (c ∷ cs) credit)) [
          | inr (slug, k) ↦
              rw (wire_ref_credit c cs slug h k)
                (named (first_tag-none _ dateline h) (first_credit-some (c ∷ cs) credit slug k))
          | inl k ↦
              rw (wire_ref_neither c cs h k)
                (neither (first_tag-none _ dateline h) (first_credit-none (c ∷ cs) credit k) refl)
        ]
      ]
