-- ===== src/Trust/Wire/Bounded.antt =====
-- libs/trust/wire.py: where a literal stands in a text, with or without word boundaries around it.
use pi_news_aggregator.Prelude.{
  if◌then◌else◌, ℕ, ◌≡◌, ◌≢◌, refl, sym, ap, subst, inl, inr, Bool, true, false, not, ◌&&◌, ◌||◌,
  Bool-cases, Option, none, some, List, [], ◌∷◌, ◌++◌, Text, starts_with, has_infix, In, here,
  there, nat_eq, and_true→both, arith,
}
use pi_news_aggregator.Trust.Wire.{word_at, boundary, head, match_rest, search_bounded, any_bounded}

-- The text has the literal in it.
pub record Contains (text pat : Text) : Type 0 where
  pub before : Text
  pub after : Text
  pub split : text ≡ before ++ pat ++ after

-- The character that stands last, with `prev` before the text
abbrev pub last_of : Option ℕ → Text → Option ℕ
last_of prev [] = prev
last_of prev (c ∷ cs) = last_of (some c) cs

abbrev pub first_of : Text → Option ℕ
first_of [] = none
first_of (c ∷ cs) = some c

same_code : (a b : ℕ) → nat_eq.test a b ≡ true → a ≡ b
same_code a b h = ground (arith, h)

code_same : (a : ℕ) → nat_eq.test a a ≡ true
code_same a = ground arith

both : {a b : Bool} → a ≡ true → b ≡ true → (a && b) ≡ true
both p q = rw (p, q) refl

or_left : (a b : Bool) → a ≡ true → (a || b) ≡ true
or_left a b p = rw p refl

or_right : (a b : Bool) → b ≡ true → (a || b) ≡ true
or_right true b p = refl
or_right false b p = p

from_or : (a b : Bool) → (a || b) ≡ true → a ≢ true → b ≡ true
from_or true b h n = absurd (n refl)
from_or false b h n = h

starts_with-split :
    (text pat : Text) → starts_with text pat ≡ true → (after : Text) × (text ≡ pat ++ after)
starts_with-split text [] h = (text, refl)
starts_with-split [] (p ∷ ps) h = cc h
starts_with-split (c ∷ cs) (p ∷ ps) h =
    let (x, y) = and_true→both _ _ h in
    let (after, q) = starts_with-split cs ps y in (after, rw (same_code c p x, q) refl)

split-starts_with : (pat after : Text) → starts_with (pat ++ after) pat ≡ true
split-starts_with [] [] = refl
split-starts_with [] (c ∷ cs) = refl
split-starts_with (p ∷ ps) after = rw (code_same p) (split-starts_with ps after)

here_infix : (text pat : Text) → starts_with text pat ≡ true → has_infix text pat ≡ true
here_infix [] pat h = h
here_infix (c ∷ cs) pat h = or_left _ _ h

pub infix→Contains : (text pat : Text) → has_infix text pat ≡ true → Contains text pat
infix→Contains [] pat h =
    let (after, q) = starts_with-split [] pat h in record { before = []; after = after; split = q }
infix→Contains (c ∷ cs) pat h = elim (Bool-cases (starts_with (c ∷ cs) pat)) [
  | inl t ↦
      let (after, q) = starts_with-split (c ∷ cs) pat t in
      record { before = []; after = after; split = q }
  | inr f ↦
      let k =
        infix→Contains cs pat
          (from_or (starts_with (c ∷ cs) pat) (has_infix cs pat) h (λ t. cc (t, f))) in
      record { before = c ∷ k.before; after = k.after; split = ap (λ l. c ∷ l) k.split }
]

infix-split : (before pat after : Text) → has_infix (before ++ pat ++ after) pat ≡ true
infix-split [] pat after = here_infix (pat ++ after) pat (split-starts_with pat after)
infix-split (c ∷ before) pat after = or_right _ _ (infix-split before pat after)

pub Contains→infix : (text pat : Text) → Contains text pat → has_infix text pat ≡ true
Contains→infix text pat k =
    subst (λ t. has_infix t pat ≡ true) (sym k.split) (infix-split k.before pat k.after)

module _ (is_word : ℕ → Bool) where
  abbrev pub wordy : Option ℕ → Bool
  wordy none = false
  wordy (some c) = is_word c

  -- A word begins or ends between the two neighbours.
  abbrev pub Edge : Option ℕ → Option ℕ → Type 0
  Edge a b = wordy a ≢ wordy b

  -- The literal stands in the text between word boundaries; `prev` is the character before the text.
  pub record Stands (prev : Option ℕ) (text pat : Text) : Type 0 where
    pub before : Text
    pub after : Text
    pub split : text ≡ before ++ pat ++ after
    pub left : Edge (last_of prev before) (first_of (pat ++ after))
    pub right : Edge (last_of (last_of prev before) pat) (first_of after)

  word_at-wordy : (o : Option ℕ) → word_at is_word o ≡ wordy o
  unfolding word_at
  word_at-wordy none = refl
  word_at-wordy (some c) = refl

  head-first_of : (text : Text) → head is_word text ≡ first_of text
  unfolding head
  head-first_of [] = refl
  head-first_of (c ∷ cs) = refl

  differs : (x y : Bool) → (if x then not y else y) ≡ true → x ≢ y
  differs true true h = cc h
  differs true false h = λ q. cc q
  differs false true h = λ q. cc q
  differs false false h = cc h

  differ : (x y : Bool) → x ≢ y → (if x then not y else y) ≡ true
  differ true true n = absurd (n refl)
  differ true false n = refl
  differ false true n = refl
  differ false false n = absurd (n refl)

  boundary-Edge : (a b : Option ℕ) → boundary is_word a b ≡ true → Edge a b
  unfolding boundary
  boundary-Edge a b h = differs (wordy a) (wordy b) (rw (word_at-wordy a, word_at-wordy b) at h)

  Edge-boundary : (a b : Option ℕ) → Edge a b → boundary is_word a b ≡ true
  unfolding boundary
  Edge-boundary a b n = rw (word_at-wordy a, word_at-wordy b) (differ (wordy a) (wordy b) n)

  match_rest-split :
      (prev : Option ℕ) (text pat : Text)
      → match_rest is_word prev text pat ≡ true
      → (after : Text) × (text ≡ pat ++ after) × Edge (last_of prev pat) (first_of after)
  unfolding match_rest
  match_rest-split prev text [] h =
      (text, refl, boundary-Edge prev (first_of text) (rw (head-first_of text) at h))
  match_rest-split prev [] (p ∷ ps) h = cc h
  match_rest-split prev (c ∷ cs) (p ∷ ps) h =
      let (x, y) = and_true→both _ _ h in
      let same = same_code c p x in
      let (after, q, e) = match_rest-split (some c) cs ps y in
      (after, rw (same, q) refl, subst (λ z. Edge (last_of (some z) ps) (first_of after)) same e)

  split-match_rest :
      (prev : Option ℕ) (pat after : Text)
      → Edge (last_of prev pat) (first_of after)
      → match_rest is_word prev (pat ++ after) pat ≡ true
  unfolding match_rest
  split-match_rest prev [] after e =
      rw (head-first_of after) (Edge-boundary prev (first_of after) e)
  split-match_rest prev (p ∷ ps) after e = rw (code_same p) (split-match_rest (some p) ps after e)

  here_search :
      (prev : Option ℕ) (text pat : Text)
      → boundary is_word prev (first_of text) ≡ true
      → match_rest is_word prev text pat ≡ true
      → search_bounded is_word prev text pat ≡ true
  unfolding search_bounded head
  here_search prev [] pat b m = both b m
  here_search prev (c ∷ cs) pat b m = or_left _ _ (both b m)

  at_start :
      (prev : Option ℕ) (text pat : Text)
      → boundary is_word prev (first_of text) ≡ true
      → match_rest is_word prev text pat ≡ true
      → Stands prev text pat
  at_start prev text pat b m =
      let (after, q, e) = match_rest-split prev text pat m in
      record {
        before = [];
        after = after;
        split = q;
        left = subst (λ t. Edge prev (first_of t)) q (boundary-Edge prev (first_of text) b);
        right = e;
      }

  pub search→Stands :
      (prev : Option ℕ) (text pat : Text)
      → search_bounded is_word prev text pat ≡ true
      → Stands prev text pat
  unfolding search_bounded head
  search→Stands prev [] pat h =
      let (b, m) = and_true→both (boundary is_word prev none) (match_rest is_word prev [] pat) h in
      at_start prev [] pat b m
  search→Stands prev (c ∷ cs) pat h =
      elim (Bool-cases (boundary is_word prev (some c) && match_rest is_word prev (c ∷ cs) pat)) [
        | inl t ↦ let (b, m) = and_true→both _ _ t in at_start prev (c ∷ cs) pat b m
        | inr f ↦
            let k = search→Stands (some c) cs pat (
              from_or (boundary is_word prev (some c) && match_rest is_word prev (c ∷ cs) pat)
                (search_bounded is_word (some c) cs pat) h (λ t. cc (t, f))) in
            record {
              before = c ∷ k.before;
              after = k.after;
              split = ap (λ l. c ∷ l) k.split;
              left = k.left;
              right = k.right;
            }
      ]

  search-split :
      (prev : Option ℕ) (before pat after : Text)
      → Edge (last_of prev before) (first_of (pat ++ after))
      → Edge (last_of (last_of prev before) pat) (first_of after)
      → search_bounded is_word prev (before ++ pat ++ after) pat ≡ true
  unfolding search_bounded
  search-split prev [] pat after l r =
      here_search prev (pat ++ after) pat (Edge-boundary prev (first_of (pat ++ after)) l)
        (split-match_rest prev pat after r)
  search-split prev (c ∷ before) pat after l r =
      or_right _ _ (search-split (some c) before pat after l r)

  pub Stands→search :
      (prev : Option ℕ) (text pat : Text)
      → Stands prev text pat
      → search_bounded is_word prev text pat ≡ true
  Stands→search prev text pat k =
      subst (λ t. search_bounded is_word prev t pat ≡ true) (sym k.split)
        (search-split prev k.before pat k.after k.left k.right)

  -- One of the literals stands in the text.
  abbrev pub AnyStands : Text → List Text → Type 0
  AnyStands text pats = (pat : Text) × In pat pats × Stands none text pat

  pub any→AnyStands :
      (text : Text) (pats : List Text) → any_bounded is_word text pats ≡ true → AnyStands text pats
  unfolding any_bounded
  any→AnyStands text [] h = cc h
  any→AnyStands text (pat ∷ pats) h = elim (Bool-cases (search_bounded is_word none text pat)) [
    | inl t ↦ (pat, here refl, search→Stands none text pat t)
    | inr f ↦
        let (p, m, k) = any→AnyStands text pats (
          from_or (search_bounded is_word none text pat) (any_bounded is_word text pats) h
            (λ t. cc (t, f))) in
        (p, there m, k)
  ]

  pub AnyStands→any :
      (text : Text) (pats : List Text) → AnyStands text pats → any_bounded is_word text pats ≡ true
  unfolding any_bounded
  AnyStands→any text [] (p, m, k) = elim m [ ]
  AnyStands→any text (pat ∷ pats) (p, here q, k) =
      or_left _ _ (Stands→search none text pat (subst (λ x. Stands none text x) q k))
  AnyStands→any text (pat ∷ pats) (p, there m, k) = or_right _ _ (AnyStands→any text pats (p, m, k))
