-- ===== src/Prelude/Tests.antt =====
-- Boolean tests, and the class of types that the code compares with `==`.
use Prim.Native.Nat.{ℕ, ◌≤◌, ◌<◌, compare, Ordering}
use mathlib.Core.Path.{◌≡◌, refl, ap}
use mathlib.Core.Logic.{◌≢◌, ◌⊎◌, inl, inr}
use mathlib.Core.Bool.{Bool, true, false, ◌&&◌}
use mathlib.Core.Option.{Option, none, some, some-injective}
use mathlib.Core.List.{List, [], ◌∷◌}
use native.Mathlib.Omega.{arith}

abbrev pub ltb : ℕ → ℕ → Bool
ltb a b = elim (compare a b) [ Ordering.lt ↦ true | _ ↦ false ]

abbrev pub leb : ℕ → ℕ → Bool
leb a b = elim (compare a b) [ Ordering.gt ↦ false | _ ↦ true ]

abbrev pub nat_beq : ℕ → ℕ → Bool
nat_beq a b = elim (compare a b) [ Ordering.eq ↦ true | _ ↦ false ]

infix 1 if◌then◌else◌
abbrev pub if◌then◌else◌ {ℓ} : {A : Type ℓ} → Bool → A → A → A
if true then x else y = x
if false then x else y = y

-- A chain of steps that may fail.
infixl 5 ◌>>=◌
abbrev pub ◌>>=◌ {ℓ κ} : {A : Type ℓ} {B : Type κ} → Option A → (A → Option B) → Option B
none >>= f = none
some a >>= f = f a

pub Bool-cases : (b : Bool) → (b ≡ true) ⊎ (b ≡ false)
Bool-cases true = inl refl
Bool-cases false = inr refl

pub Option-cases {ℓ} : {A : Type ℓ} (o : Option A) → (o ≡ none) ⊎ ((a : A) × (o ≡ some a))
Option-cases none = inl refl
Option-cases (some a) = inr (a, refl)

pub some_inj {ℓ} : {A : Type ℓ} {a b : A} → some a ≡ some b → a ≡ b
some_inj {a = a} {b = b} h = some-injective a b h

pub ltb→lt : (a b : ℕ) → ltb a b ≡ true → a < b
ltb→lt a b h = ground arith

pub ltb_false→le : (a b : ℕ) → ltb a b ≡ false → b ≤ a
ltb_false→le a b h = ground arith

pub lt→ltb : (a b : ℕ) → a < b → ltb a b ≡ true
lt→ltb a b h = ground arith

pub leb→le : (a b : ℕ) → leb a b ≡ true → a ≤ b
leb→le a b h = ground arith

pub le→leb : (a b : ℕ) → a ≤ b → leb a b ≡ true
le→leb a b h = ground arith

pub leb_false→lt : (a b : ℕ) → leb a b ≡ false → b < a
leb_false→lt a b h = ground arith

pub and_true→both : (a b : Bool) → (a && b) ≡ true → (a ≡ true) × (b ≡ true)
and_true→both true true h = (refl, refl)
and_true→both true false h = cc
and_true→both false b h = cc

-- A type whose values the source compares with `==`, and looks up in a dict: a test that holds of
-- equal values and of no others.
pub record Eq {ℓ} (T : Type ℓ) : Type ℓ where
  pub test : T → T → Bool
  pub sound : (x y : T) → test x y ≡ true → x ≡ y
  pub reflexive : (x : T) → test x x ≡ true

infix 50 ◌==◌
abbrev pub ◌==◌ {κ} : {T : Type κ} ⦃same : Eq T⦄ → T → T → Bool
◌==◌ ⦃same⦄ x y = same.test x y

pub nat_beq_sound : (m n : ℕ) → nat_beq m n ≡ true → m ≡ n
nat_beq_sound m n h = ground arith

pub nat_beq_reflexive : (n : ℕ) → nat_beq n n ≡ true
nat_beq_reflexive n = ground arith

instance abbrev pub nat_eq : Eq ℕ
nat_eq = record { test = nat_beq; sound = nat_beq_sound; reflexive = nat_beq_reflexive }

module _ {ℓ} {A : Type ℓ} ⦃e : Eq A⦄ where
  pub ==_true : (a b : A) → (a == b) ≡ true → a ≡ b
  ==_true = e.sound

  pub ==_refl : (a : A) → (a == a) ≡ true
  ==_refl = e.reflexive

  pub ==_false : (a b : A) → a ≢ b → (a == b) ≡ false
  ==_false a b h = elim (Bool-cases (a == b)) [ inl t ↦ absurd (h (==_true a b t)) | inr f ↦ f ]

  pub ==_false→ne : (a b : A) → (a == b) ≡ false → a ≢ b
  ==_false→ne a b f q = cc (f, ==_refl a, ap (λ x. a == x) q)

  -- Two values are equal or not.
  pub eq_or_ne : (a b : A) → (a ≡ b) ⊎ (a ≢ b)
  eq_or_ne a b = elim (Bool-cases (a == b)) [
    | inl t ↦ inl (==_true a b t)
    | inr f ↦ inr (==_false→ne a b f)
  ]

  abbrev pub list_beq : List A → List A → Bool
  list_beq [] [] = true
  list_beq [] (y ∷ ys) = false
  list_beq (x ∷ xs) [] = false
  list_beq (x ∷ xs) (y ∷ ys) = (x == y) && list_beq xs ys

  pub list_beq-true : (xs ys : List A) → list_beq xs ys ≡ true → xs ≡ ys
  list_beq-true [] [] h = refl
  list_beq-true [] (y ∷ ys) h = cc
  list_beq-true (x ∷ xs) [] h = cc
  list_beq-true (x ∷ xs) (y ∷ ys) h =
      let (p, q) = and_true→both (x == y) (list_beq xs ys) h in
      cc (==_true x y p, list_beq-true xs ys q)

  pub list_beq_refl : (xs : List A) → list_beq xs xs ≡ true
  list_beq_refl [] = refl
  list_beq_refl (x ∷ xs) = rw (==_refl x) (list_beq_refl xs)

  instance abbrev pub list_eq : Eq (List A)
  list_eq = record { test = list_beq; sound = list_beq-true; reflexive = list_beq_refl }
