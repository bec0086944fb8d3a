-- ===== src/Dedup/Memory/Recall.antt =====
-- How long the in-memory store remembers a key, and how large it grows.
use pi_news_aggregator.Prelude.{
  ℕ, suc, ◌+◌, ◌≤◌, ◌<◌, ◌≡◌, refl, sym, ap, ◌∙◌, inl, inr, true, false, Bool-cases, List, [], ◌∷◌,
  ◌++◌, Text, contains, In→contains, In, here, In-append_right, length, length-append, leb, list_eq,
  nat_eq, arith, subst, Distinct, Distinct-snoc, append_assoc,
}
use pi_news_aggregator.Dedup.Memory.{evict, seen, see_all}

pub evict-suffix :
    (cap : ℕ) (l : List Text)
    → (gone : List Text) × (l ≡ gone ++ evict cap l) × (length (evict cap l) ≤ cap)
unfolding evict
evict-suffix cap [] = ([], refl, omega arith)
evict-suffix cap (k ∷ ks) = elim (Bool-cases (leb (length (k ∷ ks)) cap)) [
  | inl t ↦ ([], rw t refl, rw t (ground arith))
  | inr f ↦ let (gone, e, le) = evict-suffix cap ks in (k ∷ gone, rw f (ap (λ l. k ∷ l) e), rw f le)
]

-- A list that ends in a part that fits keeps that part.
evict-keeps :
    (cap : ℕ) (before after : List Text)
    → length after ≤ cap
    → (left : List Text) × (evict cap (before ++ after) ≡ left ++ after)
unfolding evict
evict-keeps cap [] [] h = ([], refl)
evict-keeps cap [] (a ∷ as') h = ([], ground arith)
evict-keeps cap (k ∷ ks) after h = elim (Bool-cases (leb (length (k ∷ ks ++ after)) cap)) [
  | inl t ↦ (k ∷ ks, rw t refl)
  | inr f ↦ let (left, e) = evict-keeps cap ks after h in (left, rw f e)
]

Distinct-suffix : (gone l : List Text) → Distinct (gone ++ l) → Distinct l
Distinct-suffix [] l d = d
Distinct-suffix (x ∷ xs) l d = Distinct-suffix xs l d.1

-- The store holds each key once, and no more keys than the cap.
pub record IsStore (cap : ℕ) (store : List Text) : Type 0 where
  pub distinct : Distinct store
  pub fits : length store ≤ cap

pub evict-IsStore :
    (cap : ℕ) (key : Text) (store : List Text)
    → IsStore cap store
    → contains key store ≡ false
    → IsStore cap (evict cap (store ++ key ∷ []))
evict-IsStore cap key store inv f =
    let (gone, e, le) = evict-suffix cap (store ++ key ∷ []) in
    record {
      distinct = Distinct-suffix gone _ (
          subst Distinct e
            (Distinct-snoc store key inv.distinct (λ m. cc (f, In→contains key store m))));
      fits = le;
    }

seen-IsStore :
    (cap : ℕ) (key : Text) (store : List Text)
    → IsStore cap store
    → IsStore cap (seen cap key store).1
seen-IsStore cap key store inv = elim (Bool-cases (contains key store)) [
  | inl t ↦ unfold seen in rw t inv
  | inr f ↦ unfold seen in rw f (evict-IsStore cap key store inv f)
]

-- The store stays bounded and without repetition, whatever keys come.
pub see_all-IsStore :
    (cap : ℕ) (keys store : List Text) → IsStore cap store → IsStore cap (see_all cap keys store)
unfolding see_all
see_all-IsStore cap [] store inv = inv
see_all-IsStore cap (k ∷ ks) store inv =
    see_all-IsStore cap ks (seen cap k store).1 (seen-IsStore cap k store inv)

-- `key` stands in the store with at most `n` keys behind it.
record Recent (key : Text) (n : ℕ) (store : List Text) : Type 0 where
  before : List Text
  after : List Text
  split : store ≡ before ++ key ∷ after
  few : length after ≤ n

seen-Recent :
    (cap n : ℕ) (key k : Text) (store : List Text)
    → suc n < cap
    → Recent key n store
    → Recent key (suc n) (seen cap k store).1
seen-Recent cap n key k store h r = elim (Bool-cases (contains k store)) [
  | inl t ↦
      unfold seen in
      rw t
        (record { before = r.before; after = r.after; split = r.split; few = omega (arith, r.few) })
  | inr f ↦
      let tail = key ∷ (r.after ++ k ∷ []) in
      let whole : store ++ k ∷ [] ≡ r.before ++ tail =
        ap (λ l. l ++ k ∷ []) r.split ∙ append_assoc r.before (key ∷ r.after) (k ∷ []) in
      let (left, e) =
        evict-keeps cap r.before tail (omega (arith, r.few, length-append r.after (k ∷ []))) in
      unfold seen in
      rw f (record {
        before = left;
        after = r.after ++ k ∷ [];
        split = ap (evict cap) whole ∙ e;
        few = omega (arith, r.few, length-append r.after (k ∷ []));
      })
]

see_all-Recent :
    (cap n : ℕ) (key : Text) (keys store : List Text)
    → n + length keys < cap
    → Recent key n store
    → Recent key (n + length keys) (see_all cap keys store)
unfolding see_all
see_all-Recent cap n key [] store h r = record {
  before = r.before;
  after = r.after;
  split = r.split;
  few = omega (arith, r.few);
}
see_all-Recent cap n key (k ∷ ks) store h r =
    let next = seen-Recent cap n key k store (omega arith) r in
    let last = see_all-Recent cap (suc n) key ks (seen cap k store).1 (omega arith) next in
    record {
      before = last.before;
      after = last.after;
      split = last.split;
      few = omega (arith, last.few);
    }

seen_new-Recent :
    (cap : ℕ) (key : Text) (store : List Text)
    → 0 < cap
    → (seen cap key store).0 ≡ false
    → Recent key 0 (seen cap key store).1
unfolding seen
seen_new-Recent cap key store h e = elim (Bool-cases (contains key store)) [
  | inl t ↦ absurd (ground arith)
  | inr f ↦
      let (left, q) = evict-keeps cap store (key ∷ []) (omega arith) in
      rw f (record { before = left; after = []; split = q; few = omega arith })
]

seen_old : (cap : ℕ) (key : Text) (l : List Text) → In key l → (seen cap key l).0 ≡ true
unfolding seen
seen_old cap key l m = rw (In→contains key l m) refl

-- A key that is new is recorded, and is called a duplicate as long as fewer than `cap` keys have come
-- since: `key`, then `keys`, then `key` again.
pub seen-recalls :
    (cap : ℕ) (key : Text) (keys store : List Text)
    → length keys < cap
    → (seen cap key store).0 ≡ false
    → (seen cap key (see_all cap keys (seen cap key store).1)).0 ≡ true
seen-recalls cap key keys store h e =
    let start = seen_new-Recent cap key store (omega arith) e in
    let r = see_all-Recent cap 0 key keys (seen cap key store).1 (omega arith) start in
    seen_old cap key (see_all cap keys (seen cap key store).1)
      (subst (In key) (sym r.split) (In-append_right r.before _ (here refl)))
