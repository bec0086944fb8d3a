-- ===== src/Feeds/Fitting.antt =====
-- When a built item fits the schema, which then takes it as it is.
use pi_news_aggregator.Prelude.{
  Text, ℕ, ◌+◌, ◌≤◌, ◌≡◌, refl, Bool, true, false, ◌&&◌, le→leb, Option, none, some, List, ◌++◌,
  codes, take, length, length-take, length-append, arith, Bool-cases, inl, inr, starts_with,
  list_eq, if◌then◌else◌, nat_eq,
}
use pi_news_aggregator.Schema.{Item, item_fits, max_len_opt, max_ref_len}
use package.pi_news_aggregator.Feeds.{
  ◌>>=◌, needs, Json, short_entities, item_encodes, validate, text_of, http_urls,
}

both_true : {a b : Bool} → a ≡ true → b ≡ true → (a && b) ≡ true
both_true p q = rw (p, q) refl

module _ {F : Type 0} where
  -- An item within every cap.
  pub record InCaps (i : Item F) : Type 0 where
    pub source : length i.source ≤ 64
    pub lang : length i.lang ≤ 8
    pub text : length i.text ≤ 8192
    pub entities : length i.entities ≤ 128
    pub short : short_entities i.entities ≡ true
    pub urls : length i.urls ≤ 32
    pub author : length i.author_ref ≤ 256
    pub parent : max_len_opt max_ref_len i.parent_ref ≡ true
    pub hash : length i.content_hash ≤ 256
    pub raw : length i.raw_ref ≤ 256

  pub InCaps→item_fits : (i : Item F) → InCaps i → item_fits i ≡ true
  unfolding item_fits
  InCaps→item_fits i f = both_true (le→leb _ _ f.source) (
      both_true (le→leb _ _ f.lang) (
        both_true (le→leb _ _ f.text) (
          both_true (le→leb _ _ f.entities) (
            both_true (le→leb _ _ f.urls) (
              both_true (le→leb _ _ f.author)
                (both_true f.parent (both_true (le→leb _ _ f.hash) (le→leb _ _ f.raw))))))))

  -- If an item was made, it satisfies `P`.
  pub data Every (P : Item F → Type 0) : Option (Option (Item F)) → Type 0 where
    raised : Every P none
    skipped : Every P (some none)
    made : {i : Item F} → P i → Every P (some (some i))

  abbrev pub Good : Option (Option (Item F)) → Type 0
  Good o = Every InCaps o

  -- An exception for a capped text with a lone surrogate
  abbrev pub refuse_surrogates : Option (Item F) → Option (Option (Item F))
  refuse_surrogates none = some none
  refuse_surrogates (some i) = if item_encodes i then some (some i) else none

  pub validate-Good :
      {o : Option (Option (Item F))} → Good o → (o >>= validate) ≡ (o >>= refuse_surrogates)
  unfolding validate ◌>>=◌
  validate-Good raised = refl
  validate-Good skipped = refl
  validate-Good (made {i = i} g) = rw (InCaps→item_fits i g, g.short) refl

  pub Every-bind :
      {P : Item F → Type 0} {A : Type 0} (o : Option A) (f : A → Option (Option (Item F)))
      → ((a : A) → o ≡ some a → Every P (f a))
      → Every P (o >>= f)
  unfolding ◌>>=◌
  Every-bind none f h = raised
  Every-bind (some a) f h = h a refl

  pub Every-needs :
      {P : Item F → Type 0} (b : Bool) (x : Option (Option (Item F)))
      → Every P x
      → Every P (needs b x)
  unfolding needs
  Every-needs true x h = h
  Every-needs false x h = skipped

  pub length-http_urls : (x : Json F) → length (http_urls x) ≤ 32
  unfolding http_urls
  length-http_urls x = elim (Bool-cases (starts_with (text_of x) (codes "http"))) [
    | inl t ↦ rw t (omega arith)
    | inr f ↦ rw f (omega arith)
  ]

module _ {A : Type 0} where
  -- A cut text is within the cap, and so is one with a short prefix.
  pub length-take_le : (n m : ℕ) (t : List A) → n ≤ m → length (take n t) ≤ m
  length-take_le n m t h = omega (arith, length-take n t, h)

  pub length-prefixed :
      (p : List A) (n m : ℕ) (t : List A) → length p + n ≤ m → length (p ++ take n t) ≤ m
  length-prefixed p n m t h = omega (arith, length-append p (take n t), length-take n t, h)

-- Either text is within the cap.
pub one_of :
    (b : Bool) (n : ℕ) (x y : Text) → length x ≤ n → length y ≤ n → length (if b then x else y) ≤ n
one_of true n x y h k = h
one_of false n x y h k = k
