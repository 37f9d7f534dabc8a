-- ===== src/Fuzz/Random.antt =====
-- `SimpleRng`: the deterministic generator of the fuzz tests.
pub mod Bits
pub mod Mixing
pub mod Draws
use Prim.Native.Nat.{bit_xor}
use stellar_tip_contract.Base.{ℕ, ◌+◌, ◌*◌, ◌/◌, ◌%◌, ◌^◌}

abbrev pub u64_mod : ℕ
u64_mod = 2 ^ 64

abbrev pub wrapping_add : ℕ → ℕ → ℕ
wrapping_add a b = (a + b) % u64_mod

abbrev pub wrapping_mul : ℕ → ℕ → ℕ
wrapping_mul a b = a * b % u64_mod

pub record SimpleRng : Type 0 where
  pub state : ℕ

unfoldable pub new : ℕ → SimpleRng
new seed = record { state = wrapping_add seed 1 }

-- SplitMix64: the number drawn, and the generator after it.
unfoldable pub next : SimpleRng → ℕ × SimpleRng
next r =
    let state = wrapping_add r.state 0x9e37_79b9_7f4a_7c15 in
    let z = wrapping_mul (bit_xor state (state / 2 ^ 30)) 0xbf58_476d_1ce4_e5b9 in
    let z' = wrapping_mul (bit_xor z (z / 2 ^ 27)) 0x94d0_49bb_1331_11eb in
    (bit_xor z' (z' / 2 ^ 31), record r { state = state })
