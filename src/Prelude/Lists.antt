-- ===== src/Prelude/Lists.antt =====
-- Lists measured and indexed by native numbers, under the library's names, and membership as a
-- family that can be matched.
use Prim.Native.Nat.{ℕ, zero, suc, ◌+◌, ◌-◌, ◌≤◌, min}
use mathlib.Core.Path.{◌≡◌, refl, ap, sym, ◌∙◌, subst}
use mathlib.Core.Logic.{◌⊎◌, inl, inr}
use mathlib.Core.Bool.{Bool, true, false}
use mathlib.Core.List.{List, [], ◌∷◌, ◌++◌, map}
use native.Mathlib.Omega.{arith}
use package.pi_news_aggregator.Prelude.Tests.{Eq, ◌==◌, if◌then◌else◌, ==_true, ==_refl, Bool-cases}

module _ {ℓ} {A : Type ℓ} where
  abbrev pub length : List A → ℕ
  length [] = 0
  length (x ∷ xs) = suc (length xs)

  abbrev pub take : ℕ → List A → List A
  take zero xs = []
  take (suc n) [] = []
  take (suc n) (x ∷ xs) = x ∷ take n xs

  abbrev pub drop : ℕ → List A → List A
  drop zero xs = xs
  drop (suc n) [] = []
  drop (suc n) (x ∷ xs) = drop n xs

  abbrev pub replicate : ℕ → A → List A
  replicate zero x = []
  replicate (suc n) x = x ∷ replicate n x

  pub length-replicate : (n : ℕ) (x : A) → length (replicate n x) ≡ n
  length-replicate zero x = refl
  length-replicate (suc n) x = ap suc (length-replicate n x)

  pub length-append : (xs ys : List A) → length (xs ++ ys) ≡ length xs + length ys
  length-append [] ys = omega arith
  length-append (x ∷ xs) ys = omega (arith, length-append xs ys)

  pub length-take : (n : ℕ) (xs : List A) → length (take n xs) ≡ min n (length xs)
  length-take zero xs = omega arith
  length-take (suc n) [] = omega arith
  length-take (suc n) (x ∷ xs) = omega (arith, length-take n xs)

  pub length-drop : (n : ℕ) (xs : List A) → length (drop n xs) ≡ length xs - n
  length-drop zero xs = omega arith
  length-drop (suc n) [] = omega arith
  length-drop (suc n) (x ∷ xs) = omega (arith, length-drop n xs)

  pub take-append_drop : (n : ℕ) (xs : List A) → xs ≡ take n xs ++ drop n xs
  take-append_drop zero xs = refl
  take-append_drop (suc n) [] = refl
  take-append_drop (suc n) (x ∷ xs) = ap (λ l. x ∷ l) (take-append_drop n xs)

  -- `x` stands in the list.
  pub data In (x : A) : List A → Type ℓ where
    here : {y : A} {ys : List A} → x ≡ y → In x (y ∷ ys)
    there : {y : A} {ys : List A} → In x ys → In x (y ∷ ys)

  pub In-nil : {x : A} → In x [] → ⊥
  In-nil h = elim h [ ]

  pub In-take : {x : A} (n : ℕ) (xs : List A) → In x (take n xs) → In x xs
  In-take zero xs m = elim m [ ]
  In-take (suc n) [] m = elim m [ ]
  In-take (suc n) (x ∷ xs) (here q) = here q
  In-take (suc n) (x ∷ xs) (there m) = there (In-take n xs m)

  pub In-append_left : {x : A} (xs ys : List A) → In x xs → In x (xs ++ ys)
  In-append_left [] ys m = elim m [ ]
  In-append_left (z ∷ xs) ys (here q) = here q
  In-append_left (z ∷ xs) ys (there m) = there (In-append_left xs ys m)

  pub In-append_right : {x : A} (xs ys : List A) → In x ys → In x (xs ++ ys)
  In-append_right [] ys m = m
  In-append_right (z ∷ xs) ys m = there (In-append_right xs ys m)

  pub In-append : {x : A} (xs ys : List A) → In x (xs ++ ys) → In x xs ⊎ In x ys
  In-append [] ys m = inr m
  In-append (z ∷ xs) ys (here q) = inl (here q)
  In-append (z ∷ xs) ys (there m) = elim (In-append xs ys m) [
    | inl a ↦ inl (there a)
    | inr b ↦ inr b
  ]

  pub In-split : {x y : A} {ys : List A} → In x (y ∷ ys) → (x ≡ y) ⊎ In x ys
  In-split (here q) = inl q
  In-split (there m) = inr m

  pub In-one : {x y : A} → In x (y ∷ []) → x ≡ y
  In-one (here q) = q
  In-one (there m) = elim m [ ]

  pub In-tail : {x y : A} {ys : List A} → In x (y ∷ ys) → (x ≡ y → ⊥) → In x ys
  In-tail (here q) n = absurd (n q)
  In-tail (there m) n = m

  -- Every element of the list satisfies `P`.
  abbrev pub All {κ} : (A → Type κ) → List A → Type κ
  All P [] = Unit
  All P (x ∷ xs) = P x × All P xs

  pub All-append {κ} : (P : A → Type κ) (xs ys : List A) → All P xs → All P ys → All P (xs ++ ys)
  All-append P [] ys h k = k
  All-append P (x ∷ xs) ys h k = (h.0, All-append P xs ys h.1 k)

module _ {ℓ} {A : Type ℓ} where
  -- The list without the occurrence that the proof points at.
  removed : {x : A} {ys : List A} → In x ys → List A
  removed {ys = []} m = []
  removed {ys = y ∷ ys} (here q) = ys
  removed {ys = y ∷ ys} (there m) = y ∷ removed m

  length-removed : {x : A} {ys : List A} (m : In x ys) → length ys ≡ suc (length (removed m))
  unfolding removed
  length-removed {ys = []} m = elim m [ ]
  length-removed {ys = y ∷ ys} (here q) = refl
  length-removed {ys = y ∷ ys} (there m) = ap suc (length-removed m)

  In-removed : {x z : A} {ys : List A} (m : In x ys) → In z ys → (z ≡ x → ⊥) → In z (removed m)
  unfolding removed
  In-removed {ys = []} m k n = elim m [ ]
  In-removed {ys = y ∷ ys} (here q) k n = In-tail k (λ r. n (r ∙ sym q))
  In-removed {ys = y ∷ ys} (there m) (here r) n = here r
  In-removed {ys = y ∷ ys} (there m) (there k) n = there (In-removed m k n)

-- No element stands twice.
abbrev pub Distinct {ℓ} : {A : Type ℓ} → List A → Type ℓ
Distinct [] = Unit
Distinct (x ∷ xs) = (¬ In x xs) × Distinct xs

pub Distinct-snoc {ℓ} :
    {A : Type ℓ} (xs : List A) (x : A) → Distinct xs → (In x xs → ⊥) → Distinct (xs ++ x ∷ [])
Distinct-snoc [] x d n = (λ m. In-nil m, tt)
Distinct-snoc (y ∷ ys) x d n = (
  λ m. elim (In-append ys (x ∷ []) m) [ inl a ↦ d.0 a | inr b ↦ n (here (sym (In-one b))) ],
  Distinct-snoc ys x d.1 (λ m. n (there m)),
)

-- Pigeonhole: a list with no repetition, sent one-to-one into another, is no longer than that.
pub length-le_of_injection {ℓ κ} :
    {A : Type ℓ} {B : Type κ} (f : A → B) (xs : List A) (ys : List B)
    → Distinct xs
    → ((x : A) → In x xs → In (f x) ys)
    → ((x z : A) → In x xs → In z xs → f x ≡ f z → x ≡ z)
    → length xs ≤ length ys
length-le_of_injection f [] ys d into one = omega arith
length-le_of_injection f (x ∷ xs) ys d into one =
    let m = into x (here refl) in
    omega (
      arith,
      length-removed m,
      length-le_of_injection f xs (removed m) d.1
          (λ z k.
            In-removed m (into z (there k))
              (λ q. d.0 (subst (λ a. In a xs) (one z x (there k) (here refl) q) k)))
          (λ a c k l. one a c (there k) (there l)),
    )

module _ {ℓ κ} {A : Type ℓ} {B : Type κ} where
  pub length-map : (xs : List A) (f : A → B) → length (map f xs) ≡ length xs
  length-map [] f = refl
  length-map (x ∷ xs) f = ap suc (length-map xs f)

  pub In-map : {x : A} (xs : List A) (f : A → B) → In x xs → In (f x) (map f xs)
  In-map [] f m = elim m [ ]
  In-map (y ∷ xs) f (here q) = here (ap f q)
  In-map (y ∷ xs) f (there m) = there (In-map xs f m)

  pub In-map_inv :
      {b : B} (xs : List A) (f : A → B) → In b (map f xs) → (a : A) × (f a ≡ b) × In a xs
  In-map_inv [] f m = elim m [ ]
  In-map_inv (y ∷ xs) f (here q) = (y, sym q, here refl)
  In-map_inv (y ∷ xs) f (there m) = let (a, q, k) = In-map_inv xs f m in (a, q, there k)

module _ {ℓ} {A : Type ℓ} ⦃e : Eq A⦄ where
  -- `x in xs`
  abbrev pub contains : A → List A → Bool
  contains x [] = false
  contains x (y ∷ ys) = if x == y then true else contains x ys

  pub contains→In : (x : A) (xs : List A) → contains x xs ≡ true → In x xs
  contains→In x [] h = cc
  contains→In x (y ∷ ys) h = elim (Bool-cases (x == y)) [
    | inl t ↦ here (==_true x y t)
    | inr f ↦ there (contains→In x ys (rw f at h))
  ]

  pub In→contains : (x : A) (xs : List A) → In x xs → contains x xs ≡ true
  In→contains x [] m = elim m [ ]
  In→contains x (y ∷ ys) m = elim (Bool-cases (x == y)) [
    | inl t ↦ rw t
    | inr f ↦ rw f (In→contains x ys (tail m f))
  ]
    where
      tail : In x (y ∷ ys) → (x == y) ≡ false → In x ys
      tail (here q) f = cc (f, q, ==_refl x, ap (λ z. x == z) q)
      tail (there k) f = k

  pub dec_In : (x : A) (xs : List A) → In x xs ⊎ (¬ In x xs)
  dec_In x xs = elim (Bool-cases (contains x xs)) [
    | inl t ↦ inl (contains→In x xs t)
    | inr f ↦ inr (λ m. cc (f, In→contains x xs m))
  ]
