-- ===== src/Fuzz/Random/Bits.antt =====
-- What the generator needs to know of the exclusive or.
use Prim.Native.Nat.{bit_xor, bit_xor-bitwise, digits, differ}
use native.Mathlib.Nat.{pow-suc}
use stellar_tip_contract.Base.{
  ℕ, zero, suc, ◌+◌, ◌*◌, ◌/◌, ◌%◌, ◌^◌, ◌≤◌, ◌<◌, ◌≡◌, refl, ◌∙◌, sym, ap, arith,
}

xor_digits_fuel :
    (n m a b : ℕ) → a ≤ n → a ≤ m → digits (λ y. y) differ n a b ≡ digits (λ y. y) differ m a b
xor_digits_fuel zero zero a b p q = refl
xor_digits_fuel zero (suc m) zero b p q = refl
xor_digits_fuel zero (suc m) (suc a) b p q = absurd (omega arith)
xor_digits_fuel (suc n) zero zero b p q = refl
xor_digits_fuel (suc n) zero (suc a) b p q = absurd (omega arith)
xor_digits_fuel (suc n) (suc m) zero b p q = refl
xor_digits_fuel (suc n) (suc m) (suc a) b p q =
    omega (arith, xor_digits_fuel n m (suc a / 2) (b / 2) (omega arith) (omega arith))

zero-xor : (b : ℕ) → bit_xor 0 b ≡ b
zero-xor b = bit_xor-bitwise 0 b

differ_zero : (y : ℕ) → differ 0 y ≡ y
differ_zero y = refl

-- One equation for the lowest digit.
xor_step : (a b : ℕ) → bit_xor a b ≡ bit_xor (a / 2) (b / 2) * 2 + differ (a % 2) (b % 2)
xor_step zero b = omega (arith, zero-xor b, zero-xor (b / 2), differ_zero (b % 2))
xor_step (suc a) b = omega (
  arith,
  bit_xor-bitwise (suc a) b,
  bit_xor-bitwise (suc a / 2) (b / 2),
  xor_digits_fuel a (suc a / 2) (suc a / 2) (b / 2) (omega arith) (omega arith),
)

differ-lt : (x y : ℕ) → x < 2 → y < 2 → differ x y < 2
differ-lt zero y p q = q
differ-lt (suc x) zero p q = p
differ-lt (suc zero) (suc zero) p q = omega arith
differ-lt (suc zero) (suc (suc y)) p q = absurd (omega arith)
differ-lt (suc (suc x)) (suc y) p q = absurd (omega arith)

differ_cancel : (x y z : ℕ) → x < 2 → y < 2 → z < 2 → differ x z ≡ differ y z → x ≡ y
differ_cancel zero zero z p q r e = refl
differ_cancel (suc zero) (suc zero) z p q r e = refl
differ_cancel zero (suc zero) zero p q r e = e
differ_cancel zero (suc zero) (suc zero) p q r e = sym e
differ_cancel zero (suc zero) (suc (suc z)) p q r e = absurd (omega arith)
differ_cancel (suc zero) zero zero p q r e = e
differ_cancel (suc zero) zero (suc zero) p q r e = sym e
differ_cancel (suc zero) zero (suc (suc z)) p q r e = absurd (omega arith)
differ_cancel (suc (suc x)) y z p q r e = absurd (omega arith)
differ_cancel x (suc (suc y)) z p q r e = absurd (omega arith)

pub xor_half : (a b : ℕ) → bit_xor a b / 2 ≡ bit_xor (a / 2) (b / 2)
xor_half a b = omega (arith, xor_step a b, differ-lt (a % 2) (b % 2) (omega arith) (omega arith))

pub xor_parity : (a b : ℕ) → bit_xor a b % 2 ≡ differ (a % 2) (b % 2)
xor_parity a b = omega (arith, xor_step a b, differ-lt (a % 2) (b % 2) (omega arith) (omega arith))

pub xor-lt : (k a b : ℕ) → a < 2 ^ k → b < 2 ^ k → bit_xor a b < 2 ^ k
xor-lt zero a b p q = let none : a ≡ 0 = omega arith in rw (none, zero-xor b) q
xor-lt (suc k) a b p q = omega (
  arith,
  pow-suc 2 k,
  xor_step a b,
  differ-lt (a % 2) (b % 2) (omega arith) (omega arith),
  xor-lt k (a / 2) (b / 2) (omega (arith, pow-suc 2 k, p)) (omega (arith, pow-suc 2 k, q)),
)

-- The exclusive or with a number's own upper digits can be undone: the upper digits come first.
module _ (d : ℕ) (halved : (x : ℕ) → x / d / 2 ≡ x / 2 / d)
    (deeper : (x y : ℕ) → x / 2 ≡ y / 2 → x / d ≡ y / d) where
  unshift_fuel : (n x y : ℕ) → x ≤ n → y ≤ n → bit_xor x (x / d) ≡ bit_xor y (y / d) → x ≡ y
  unshift_fuel zero x y p q e = omega arith
  unshift_fuel (suc n) x y p q e =
      let upper : bit_xor (x / 2) (x / 2 / d) ≡ bit_xor (y / 2) (y / 2 / d) =
        rw (← halved x, ← halved y, ← xor_half x (x / d), ← xor_half y (y / d))
          (ap (λ t. t / 2) e) in
      let halves : x / 2 ≡ y / 2 =
        unshift_fuel n (x / 2) (y / 2) (omega arith) (omega arith) upper in
      let same : x / d ≡ y / d = deeper x y halves in
      let lowest : differ (x % 2) (x / d % 2) ≡ differ (y % 2) (x / d % 2) =
        sym (xor_parity x (x / d)) ∙ ap (λ t. t % 2) e ∙ rw same (xor_parity y (y / d)) in
      let digit =
        differ_cancel (x % 2) (y % 2) (x / d % 2) (omega arith) (omega arith) (omega arith)
          lowest in
      omega (arith, halves, digit)

  pub unshift : (x y : ℕ) → bit_xor x (x / d) ≡ bit_xor y (y / d) → x ≡ y
  unshift x y = unshift_fuel (x + y) x y (omega arith) (omega arith)
