-- ===== src/Fuzz/Random/Draws.antt =====
-- What a seed's sequence of draws is like.
use native.Mathlib.Decide.{dec_lt}
use stellar_tip_contract.Base.{ℕ, zero, suc, ◌+◌, ◌*◌, ◌%◌, ◌^◌, ◌<◌, ◌≡◌, ◌≢◌, sym, ◌∙◌, ap, arith}
use stellar_tip_contract.Fuzz.Random.{SimpleRng, wrapping_mul, new, next}
use stellar_tip_contract.Fuzz.Random.Mixing.{mix, mix-lt, mix_injective}

-- The generator after `n` draws, and the draw that follows.
unfoldable pub later : ℕ → SimpleRng → SimpleRng
unfolding next
later zero r = r
later (suc n) r = later n (next r).1

unfoldable pub draw : ℕ → ℕ → ℕ
unfolding later new next
draw seed n = (next (later n (new seed))).0

state-later :
    (n : ℕ) (r : SimpleRng)
    → r.state < 2 ^ 64
    → (later n r).state ≡ (r.state + n * 0x9e37_79b9_7f4a_7c15) % 2 ^ 64
unfolding later next
state-later zero r p = omega arith
state-later (suc n) r p = omega (arith, state-later n (next r).1 (omega arith))

draw_lem : (seed n : ℕ) → draw seed n ≡ mix ((seed + 1 + (n + 1) * 0x9e37_79b9_7f4a_7c15) % 2 ^ 64)
unfolding draw next new
draw_lem seed n = ap mix (omega (arith, state-later n (new seed) (omega arith)))

-- The increment is odd too: with its inverse, the state tells the number of draws.
unscaled :
    (s n : ℕ)
    → wrapping_mul ((s + n * 0x9e37_79b9_7f4a_7c15) % 2 ^ 64) 0xf1de_83e1_9937_733d
      ≡ (s * 0xf1de_83e1_9937_733d + n) % 2 ^ 64
unscaled s n = omega arith

apart : (x i j : ℕ) → i < j → j < 2 ^ 64 → (x + (i + 1)) % 2 ^ 64 ≢ (x + (j + 1)) % 2 ^ 64
apart x i j p q e = omega arith

differ_in_order : (seed i j : ℕ) → i < j → j < 2 ^ 64 → draw seed i ≢ draw seed j
differ_in_order seed i j p q same =
    let states =
      mix_injective ((seed + 1 + (i + 1) * 0x9e37_79b9_7f4a_7c15) % 2 ^ 64)
        ((seed + 1 + (j + 1) * 0x9e37_79b9_7f4a_7c15) % 2 ^ 64) (omega arith) (omega arith)
        (sym (draw_lem seed i) ∙ same ∙ draw_lem seed j) in
    apart ((seed + 1) * 0xf1de_83e1_9937_733d) i j p q (
      sym (unscaled (seed + 1) (i + 1))
      ∙ ap (λ t. wrapping_mul t 0xf1de_83e1_9937_733d) states
      ∙ unscaled (seed + 1) (j + 1))

-- Each draw of a seed is a 64-bit number, and among the first 2^64 draws no number comes up twice.
pub draws_differ :
    (seed i j : ℕ)
    → i < 2 ^ 64
    → j < 2 ^ 64
    → i ≢ j
    → (draw seed i < 2 ^ 64) × (draw seed i ≢ draw seed j)
draws_differ seed i j p q other = (
  rw (draw_lem seed i) (mix-lt _),
  elim (dec_lt i j) [
    | yes before ↦ differ_in_order seed i j before q
    | no not_before ↦
        λ same. differ_in_order seed j i (omega (arith, not_before, other)) p (sym same)
  ],
)
