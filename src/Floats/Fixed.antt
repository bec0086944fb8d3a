-- ===== src/Floats/Fixed.antt =====
-- An instance of the interface that computes: differences of numbers of billionths, with products
-- and quotients cut. Runs on concrete numbers use it.
use pi_news_aggregator.Prelude.{
  ℕ, ◌+◌, ◌*◌, ◌/◌, ◌^◌, ◌-◌, ◌≡◌, Bool, true, false, not, leb, ◌⊎◌, inl, inr, refl, if◌then◌else◌,
  arith,
}
use package.pi_news_aggregator.Floats.{Float, Ordered}

pub record Signed : Type 0 where
  pub up : ℕ
  pub down : ℕ

abbrev le_signed : Signed → Signed → Bool
le_signed a b = leb (a.up + b.down) (b.up + a.down)

abbrev scale : ℕ
scale = 1000000000

abbrev add_signed : Signed → Signed → Signed
add_signed a b = record { up = a.up + b.up; down = a.down + b.down }

abbrev sub_signed : Signed → Signed → Signed
sub_signed a b = record { up = a.up + b.down; down = a.down + b.up }

abbrev neg_signed : Signed → Signed
neg_signed a = record { up = a.down; down = a.up }

abbrev size : Signed → ℕ
size a = (a.up - a.down) + (a.down - a.up)

-- The product and the quotient of the sizes, with the sign of the product.
abbrev with_sign : Signed → Signed → ℕ → Signed
with_sign a b n =
    if leb a.down a.up
    then (if leb b.down b.up then record { up = n; down = 0 } else record { up = 0; down = n })
    else (if leb b.down b.up then record { up = 0; down = n } else record { up = n; down = 0 })

abbrev pub fixed : Float
fixed = record {
  F = Signed;
  dec = λ n k. record { up = n * scale / 10 ^ k; down = 0 };
  add = add_signed;
  sub = sub_signed;
  mul = λ a b. with_sign a b (size a * size b / scale);
  div = λ a b. with_sign a b (size a * scale / size b);
  neg = neg_signed;
  exp = λ a. a;
  log = λ a. a;
  leb = le_signed;
  ltb = λ a b. not (le_signed b a);
}

pub le_signed_total : (a b : Signed) → (le_signed a b ≡ true) ⊎ (le_signed b a ≡ true)
le_signed_total a b = grind arith

pub le_signed_trans :
    (a b c : Signed) → le_signed a b ≡ true → le_signed b c ≡ true → le_signed a c ≡ true
le_signed_trans a b c h k = ground arith

pub add_signed_mono :
    (a b c : Signed) → le_signed b c ≡ true → le_signed (add_signed a b) (add_signed a c) ≡ true
add_signed_mono a b c h = ground arith

pub add_zero_signed :
    (a : Signed)
    → (le_signed a (add_signed a (fixed.dec 0 0)) ≡ true)
      × (le_signed (add_signed a (fixed.dec 0 0)) a ≡ true)
add_zero_signed a = (ground arith, ground arith)

pub sub_sign_signed :
    (a b : Signed) → le_signed b a ≡ true → le_signed (fixed.dec 0 0) (sub_signed a b) ≡ true
sub_sign_signed a b h = ground arith

pub neg_sign_signed :
    (a : Signed)
    → le_signed (fixed.dec 0 0) a ≡ true
    → le_signed (neg_signed a) (fixed.dec 0 0) ≡ true
neg_sign_signed a h = ground arith

with_sign-zero :
    (a b : Signed) (n : ℕ)
    → a.up ≡ a.down
    → n ≡ 0
    → le_signed (with_sign a b n) (fixed.dec 0 0) ≡ true
with_sign-zero a b n h k = rw k (ground arith)

size-zero : (a : Signed) (m : ℕ) → a.up ≡ a.down → size a * m / scale ≡ 0
size-zero a m h = rw (sizes a h) (rw (zero_mul m) refl)
  where
    zero_mul : (m : ℕ) → 0 * m ≡ 0
    zero_mul m = omega arith

    sizes : (a : Signed) → a.up ≡ a.down → size a ≡ 0
    sizes a h = omega (arith, h)

pub mul_sign_signed :
    (a b : Signed)
    → le_signed a (fixed.dec 0 0) ≡ true
    → le_signed (fixed.dec 0 0) b ≡ true
    → le_signed (fixed.mul a b) (fixed.dec 0 0) ≡ true
mul_sign_signed a b h k = elim (cases a h) [
  | inl q ↦ with_sign-zero a b (size a * size b / scale) q (size-zero a (size b) q)
  | inr f ↦ rw (f, positive b k) (ground arith)
]
  where
    cases :
        (a : Signed)
        → le_signed a (fixed.dec 0 0) ≡ true
        → (a.up ≡ a.down) ⊎ (leb a.down a.up ≡ false)
    cases a h = grind arith

    positive : (b : Signed) → le_signed (fixed.dec 0 0) b ≡ true → leb b.down b.up ≡ true
    positive b k = ground arith

abbrev pub fixed_ordered : Ordered fixed
fixed_ordered = record {
  le_total = le_signed_total;
  le_trans = le_signed_trans;
  lt_not = λ a b. refl;
  add_mono = add_signed_mono;
  add_zero_up = λ a. (add_zero_signed a).0;
  add_zero_down = λ a. (add_zero_signed a).1;
  sub_sign = sub_sign_signed;
  neg_sign = neg_sign_signed;
  mul_sign = mul_sign_signed;
}
