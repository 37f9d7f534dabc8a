-- ===== src/Fuzz/Random/Mixing.antt =====
-- SplitMix64's mixing of the state takes no two states to the same number.
use Prim.Native.Nat.{bit_xor}
use stellar_tip_contract.Base.{ℕ, ◌/◌, ◌^◌, ◌<◌, ◌≡◌, sym, ap, ◌∙◌, arith}
use stellar_tip_contract.Fuzz.Random.{wrapping_mul}
use stellar_tip_contract.Fuzz.Random.Bits.{xor-lt, unshift}

abbrev pub mix : ℕ → ℕ
mix state =
    let z = wrapping_mul (bit_xor state (state / 2 ^ 30)) 0xbf58_476d_1ce4_e5b9 in
    let z' = wrapping_mul (bit_xor z (z / 2 ^ 27)) 0x94d0_49bb_1331_11eb in bit_xor z' (z' / 2 ^ 31)

shifted-lt : (x d : ℕ) → x < 2 ^ 64 → x / d < 2 ^ 64 → bit_xor x (x / d) < 2 ^ 64
shifted-lt x d p q = xor-lt 64 x (x / d) p q

pub mix-lt : (x : ℕ) → mix x < 2 ^ 64
mix-lt x =
    let z = wrapping_mul (bit_xor x (x / 2 ^ 30)) 0xbf58_476d_1ce4_e5b9 in
    let z' = wrapping_mul (bit_xor z (z / 2 ^ 27)) 0x94d0_49bb_1331_11eb in
    let small : z' < 2 ^ 64 = omega arith in shifted-lt z' (2 ^ 31) small (omega (arith, small))

-- The multipliers are odd, so they have inverses.
undo_first :
    (x : ℕ)
    → x < 2 ^ 64
    → wrapping_mul (wrapping_mul x 0xbf58_476d_1ce4_e5b9) 0x96de_1b17_3f11_9089 ≡ x
undo_first x p = omega arith

undo_second :
    (x : ℕ)
    → x < 2 ^ 64
    → wrapping_mul (wrapping_mul x 0x94d0_49bb_1331_11eb) 0x3196_42b2_d24d_8ec3 ≡ x
undo_second x p = omega arith

first_injective :
    (x y : ℕ)
    → x < 2 ^ 64
    → y < 2 ^ 64
    → wrapping_mul x 0xbf58_476d_1ce4_e5b9 ≡ wrapping_mul y 0xbf58_476d_1ce4_e5b9
    → x ≡ y
first_injective x y p q e =
    sym (undo_first x p) ∙ ap (λ t. wrapping_mul t 0x96de_1b17_3f11_9089) e ∙ undo_first y q

second_injective :
    (x y : ℕ)
    → x < 2 ^ 64
    → y < 2 ^ 64
    → wrapping_mul x 0x94d0_49bb_1331_11eb ≡ wrapping_mul y 0x94d0_49bb_1331_11eb
    → x ≡ y
second_injective x y p q e =
    sym (undo_second x p) ∙ ap (λ t. wrapping_mul t 0x3196_42b2_d24d_8ec3) e ∙ undo_second y q

undo_30 : (x y : ℕ) → bit_xor x (x / 2 ^ 30) ≡ bit_xor y (y / 2 ^ 30) → x ≡ y
undo_30 = unshift (2 ^ 30) (λ x. omega arith) (λ x y p. omega arith)

undo_27 : (x y : ℕ) → bit_xor x (x / 2 ^ 27) ≡ bit_xor y (y / 2 ^ 27) → x ≡ y
undo_27 = unshift (2 ^ 27) (λ x. omega arith) (λ x y p. omega arith)

undo_31 : (x y : ℕ) → bit_xor x (x / 2 ^ 31) ≡ bit_xor y (y / 2 ^ 31) → x ≡ y
undo_31 = unshift (2 ^ 31) (λ x. omega arith) (λ x y p. omega arith)

pub mix_injective : (x y : ℕ) → x < 2 ^ 64 → y < 2 ^ 64 → mix x ≡ mix y → x ≡ y
mix_injective x y p q e =
    let z = wrapping_mul (bit_xor x (x / 2 ^ 30)) 0xbf58_476d_1ce4_e5b9 in
    let t = wrapping_mul (bit_xor y (y / 2 ^ 30)) 0xbf58_476d_1ce4_e5b9 in
    let small_z : z < 2 ^ 64 = omega arith in
    let small_t : t < 2 ^ 64 = omega arith in
    let second : bit_xor z (z / 2 ^ 27) ≡ bit_xor t (t / 2 ^ 27) =
      second_injective _ _ (shifted-lt z (2 ^ 27) small_z (omega (arith, small_z)))
        (shifted-lt t (2 ^ 27) small_t (omega (arith, small_t))) (undo_31 _ _ e) in
    let first : bit_xor x (x / 2 ^ 30) ≡ bit_xor y (y / 2 ^ 30) =
      first_injective _ _ (shifted-lt x (2 ^ 30) p (omega (arith, p)))
        (shifted-lt y (2 ^ 30) q (omega (arith, q))) (undo_27 z t second) in
    undo_30 x y first
