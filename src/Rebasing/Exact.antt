-- ===== src/Rebasing/Exact.antt =====
-- Multiplication and division where the conversion between shares and amounts is exact.
use native.Mathlib.Nat.{add-mul-div_right}
use stellar_tip_contract.Base.{
  ℕ, ◌+◌, ◌*◌, ◌/◌, ◌<◌, ℤ, pos, negsuc, pos_part, ◌+ℤ◌, ◌*ℤ◌, ◌/ℤ◌, ◌≤ℤ◌, int_laws, ◌≡◌, ◌∙◌, refl,
  ap, arith,
}

pub nonneg_pos : (x : ℤ) → pos 0 ≤ℤ x → x ≡ pos (pos_part x)
nonneg_pos (pos n) p = refl
nonneg_pos (negsuc n) p = absurd (omega arith)

pub mul-pos : (a b : ℕ) → pos a *ℤ pos b ≡ pos (a * b)
unfolding ◌*ℤ◌
mul-pos a b = ground arith

pub div-pos : (a b : ℕ) → pos a /ℤ pos b ≡ pos (a / b)
unfolding ◌/ℤ◌
div-pos a b = ground arith

div-add : (t s k d n : ℕ) → 0 < d → s * k ≡ n * d → (t + s) * k / d ≡ t * k / d + n
div-add t s k d n p exact =
    let split : (t + s) * k ≡ t * k + n * d = grind (arith, exact) in
    ap (λ (x : ℕ). x / d) split ∙ add-mul-div_right (t * k) n p

pub add-pos : (a b : ℕ) → pos a +ℤ pos b ≡ pos (a + b)
add-pos a b = omega int_laws

pub quotient_add :
    (t s num den : ℤ) (n : ℕ)
    → pos 0 ≤ℤ t
    → pos 0 ≤ℤ s
    → pos 0 ≤ℤ num
    → pos 1 ≤ℤ den
    → s *ℤ num ≡ pos n *ℤ den
    → (t +ℤ s) *ℤ num /ℤ den ≡ (t *ℤ num /ℤ den) +ℤ pos n
quotient_add t s num den n p q r w exact =
    rw (nonneg_pos t p, nonneg_pos s q, nonneg_pos num r, nonneg_pos den (omega (arith, w)))
      (at_naturals (pos_part t) (pos_part s) (pos_part num) (pos_part den) (omega (arith, w))
        exact')
  where
    exact' : pos_part s * pos_part num ≡ n * pos_part den
    exact' = ap pos_part (
        rw
          (
            nonneg_pos s q,
            nonneg_pos num r,
            nonneg_pos den (omega (arith, w)),
            mul-pos (pos_part s) (pos_part num),
            mul-pos n (pos_part den),
          )
          at exact)

    at_naturals :
        (t s num den : ℕ)
        → 0 < den
        → s * num ≡ n * den
        → (pos t +ℤ pos s) *ℤ pos num /ℤ pos den ≡ (pos t *ℤ pos num /ℤ pos den) +ℤ pos n
    at_naturals t s num den p exact =
        rw
          (
            add-pos t s,
            mul-pos (t + s) num,
            div-pos ((t + s) * num) den,
            mul-pos t num,
            div-pos (t * num) den,
            add-pos (t * num / den) n,
          )
          (ap pos (div-add t s num den n p exact))
