-- ===== src/Cluster/Choice.antt =====
-- services/cluster/cluster.py, choose_story: the story that is chosen.
use pi_news_aggregator.Prelude.{
  ℕ, Bool, true, false, ◌≡◌, refl, inl, inr, ◌&&◌, Option, none, some, List, [], ◌∷◌, ◌++◌, Text,
  map, In, here, there, contains, contains→In, In→contains, share, Bool-cases, and_true→both, All,
  list_eq, nat_eq, ap, sym,
}
use pi_news_aggregator.Floats.{Float}
use package.pi_news_aggregator.Cluster.{Neighbor, joins, nearest_joining, choose_story}

-- A text of both lists.
abbrev pub Common : List Text → List Text → Type 0
Common xs ys = (t : Text) × In t xs × In t ys

pub share→Common : (xs ys : List Text) → share xs ys ≡ true → Common xs ys
share→Common [] ys h = absurd (differ h)
  where
    differ : false ≡ true → ⊥
    differ q = cc q
share→Common (x ∷ xs) ys h = elim (Bool-cases (contains x ys)) [
  | inl t ↦ (x, here refl, contains→In x ys t)
  | inr f ↦ let (t, a, b) = share→Common xs ys (rw f at h) in (t, there a, b)
]

pub Common→share : (t : Text) (xs ys : List Text) → In t xs → In t ys → share xs ys ≡ true
Common→share t [] ys m k = elim m [ ]
Common→share t (x ∷ xs) ys (here q) k = rw (In→contains x ys (rw (sym q) k)) refl
Common→share t (x ∷ xs) ys (there m) k = elim (Bool-cases (contains x ys)) [
  | inl c ↦ rw c refl
  | inr f ↦ rw f (Common→share t xs ys m k)
]

module _ (fl : Float) (folded : List Text) (theta : fl.F) where
  -- A neighbour that the item may join.
  abbrev pub Fits : Neighbor fl.F → Type 0
  Fits n = (fl.leb theta n.similarity ≡ true) × Common folded n.entity_texts

  abbrev pub FitsNot : Neighbor fl.F → Type 0
  FitsNot n = Fits n → ⊥

  -- The choice among the neighbours, nearest first.
  pub data Chosen (neighbors : List (Neighbor fl.F)) : Option ℕ → Type 0 where
    joined :
        (before after : List (Neighbor fl.F)) (n : Neighbor fl.F)
        → neighbors ≡ before ++ n ∷ after
        → All FitsNot before
        → Fits n
        → Chosen neighbors (some n.story_id)
    opened : All FitsNot neighbors → Chosen neighbors none

  joins→Fits : (n : Neighbor fl.F) → joins fl folded theta n ≡ true → Fits n
  unfolding joins
  joins→Fits n h =
      let (a, b) = and_true→both (fl.leb theta n.similarity) (share folded n.entity_texts) h in
      (a, share→Common folded n.entity_texts b)

  joins_false→FitsNot : (n : Neighbor fl.F) → joins fl folded theta n ≡ false → FitsNot n
  unfolding joins
  joins_false→FitsNot n h (a, (t, m, k)) =
      cc (h, and_both a (Common→share t folded n.entity_texts m k))
    where
      and_both : {x y : Bool} → x ≡ true → y ≡ true → (x && y) ≡ true
      and_both p q = rw p q

  Chosen-cons :
      {o : Option ℕ} (n : Neighbor fl.F) (neighbors : List (Neighbor fl.F))
      → FitsNot n
      → Chosen neighbors o
      → Chosen (n ∷ neighbors) o
  Chosen-cons n neighbors h (joined before after m split rest fits) =
      joined (n ∷ before) after m (ap (λ l. n ∷ l) split) (h, rest) fits
  Chosen-cons n neighbors h (opened rest) = opened (h, rest)

  nearest_joining-Chosen :
      (neighbors : List (Neighbor fl.F))
      → Chosen neighbors (nearest_joining fl folded theta neighbors)
  unfolding nearest_joining
  nearest_joining-Chosen [] = opened tt
  nearest_joining-Chosen (n ∷ neighbors) = elim (Bool-cases (joins fl folded theta n)) [
    | inl t ↦ rw (t, nearest_joining) (joined [] neighbors n refl tt (joins→Fits n t))
    | inr f ↦
        rw (f, nearest_joining)
          (Chosen-cons n neighbors (joins_false→FitsNot n f) (nearest_joining-Chosen neighbors))
  ]

  no_entities : (neighbors : List (Neighbor fl.F)) → folded ≡ [] → All FitsNot neighbors
  no_entities [] q = tt
  no_entities (n ∷ neighbors) q = (λ h. none_common (rw q at h.1), no_entities neighbors q)
    where
      none_common : {ys : List Text} → Common [] ys → ⊥
      none_common (t, m, k) = elim m [ ]

-- An item joins the story of the nearest neighbour that is at least `theta` similar and has one of
-- the item's case-folded entities. If there is none, as always for an item with no entities, it
-- opens a story of its own.
pub choose_story-Chosen :
    (fl : Float) (casefold : Text → Text) (new_entities : List Text)
    (neighbors : List (Neighbor fl.F)) (theta : fl.F)
    → Chosen fl
        (map casefold new_entities)
        theta
        neighbors
        (choose_story fl casefold new_entities neighbors theta)
unfolding choose_story
choose_story-Chosen fl casefold [] neighbors theta = opened (no_entities fl [] theta neighbors refl)
choose_story-Chosen fl casefold (e ∷ es) neighbors theta =
    nearest_joining-Chosen fl (map casefold (e ∷ es)) theta neighbors
