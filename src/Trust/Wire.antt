-- ===== src/Trust/Wire.antt =====
-- libs/trust/wire.py. The class `\w` of the regular expressions is a parameter.
pub mod Bounded
pub mod Priority
use pi_news_aggregator.Prelude.{
  ℕ, Bool, true, false, not, ◌&&◌, ◌||◌, Option, none, some, List, [], ◌∷◌, Text, codes, nonempty,
  take, starts_with, has_infix, nat_eq, if◌then◌else◌,
}

abbrev pub dateline_window : ℕ
dateline_window = 160

-- The slug and the literal of each `\(…\)` pattern.
abbrev pub dateline : List (Text × Text)
dateline =
    (codes "ap", codes "(AP)")
    ∷ (codes "reuters", codes "(Reuters)")
    ∷ (codes "afp", codes "(AFP)")
    ∷ (codes "cnn", codes "(CNN)")
    ∷ (codes "gray", codes "(Gray News)")
    ∷ (codes "scripps", codes "(Scripps News)")
    ∷ (codes "nexstar", codes "(NEXSTAR)")
    ∷ []

-- The slug and the literals, alternatives of one pattern, that stand between `\b`s.
abbrev pub credit : List (Text × List Text)
credit =
    (codes "ap", codes "Associated Press" ∷ [])
    ∷ (codes "reuters", codes "Reuters" ∷ [])
    ∷ (codes "afp", codes "Agence France-Presse" ∷ codes "AFP" ∷ [])
    ∷ (codes "cnn", codes "CNN Newsource" ∷ [])
    ∷ (codes "gray", codes "Gray News" ∷ [])
    ∷ (codes "scripps", codes "Scripps News" ∷ [])
    ∷ (codes "nexstar", codes "Nexstar" ∷ [])
    ∷ []

-- for slug, pat in _DATELINE: if pat.search(head): return slug
unfoldable pub first_tag : Text → List (Text × Text) → Option Text
first_tag head [] = none
first_tag head ((slug, pat) ∷ pats) = if has_infix head pat then some slug else first_tag head pats

module _ (is_word : ℕ → Bool) where
  -- Is the character (if any) on the one side a word character?
  unfoldable pub word_at : Option ℕ → Bool
  word_at none = false
  word_at (some c) = is_word c

  -- `\b` between two neighbours
  unfoldable pub boundary : Option ℕ → Option ℕ → Bool
  unfolding word_at
  boundary a b = if word_at a then not (word_at b) else word_at b

  unfoldable pub head : Text → Option ℕ
  head [] = none
  head (c ∷ cs) = some c

  -- The rest of the pattern matches here, and a boundary follows; `prev` is the character before.
  unfoldable pub match_rest : Option ℕ → Text → Text → Bool
  unfolding boundary head
  match_rest prev text [] = boundary prev (head text)
  match_rest prev [] (p ∷ ps) = false
  match_rest prev (c ∷ cs) (p ∷ ps) = nat_eq.test c p && match_rest (some c) cs ps

  -- pat.search(text) for `\bpat\b`, with `prev` the character before the text
  unfoldable pub search_bounded : Option ℕ → Text → Text → Bool
  unfolding match_rest
  search_bounded prev [] pat = boundary prev (head []) && match_rest prev [] pat
  search_bounded prev (c ∷ cs) pat =
      (boundary prev (some c) && match_rest prev (c ∷ cs) pat) || search_bounded (some c) cs pat

  unfoldable pub any_bounded : Text → List Text → Bool
  unfolding search_bounded
  any_bounded text [] = false
  any_bounded text (pat ∷ pats) = search_bounded none text pat || any_bounded text pats

  unfoldable pub first_credit : Text → List (Text × List Text) → Option Text
  unfolding any_bounded
  first_credit text [] = none
  first_credit text ((slug, pats) ∷ rest) =
      if any_bounded text pats then some slug else first_credit text rest

  unfoldable pub wire_ref : Text → Text
  unfolding first_tag first_credit
  wire_ref text =
      if nonempty text
      then elim (first_tag (take dateline_window text) dateline) [
        | some slug ↦ slug
        | none ↦ elim (first_credit text credit) [ some slug ↦ slug | none ↦ [] ]
      ]
      else []
