-- ===== src/Bookkeeping/Ordering.antt =====
-- The order of two tips.
use stellar_tip_contract.Base.{
  ℕ, ℤ, ◌+ℤ◌, ◌==◌, ◌≡◌, refl, Bool-cases, inl, inr, false, int_laws, arith,
}
use stellar_tip_contract.Host.{Host, MapLaws, TokenLaws, Address, Text}
use stellar_tip_contract.Env.{Env, ok}
use stellar_tip_contract.Contract.{Call, execute}
use stellar_tip_contract.Outcome.Calls.{executed}
use stellar_tip_contract.System.Reach.{Reach, next, call}
use stellar_tip_contract.Bookkeeping.Book.{Book, book, post}
use stellar_tip_contract.Bookkeeping.Refinement.{book_path, refines}

add_swap : (x y z : ℤ) → x +ℤ y +ℤ z ≡ x +ℤ z +ℤ y
add_swap x y z = omega int_laws

-- The book after two tips to different creators does not depend on their order.
posts_commute :
    (from from' creator creator' token token' : Address) (amount amount' : ℤ)
    (message message' : Text) (now : ℕ) (b : Book)
    → (creator == creator') ≡ false
    → post
        (Call.tip from' creator' token' amount' message')
        now
        (post (Call.tip from creator token amount message) now b)
      ≡ post
          (Call.tip from creator token amount message)
          now
          (post (Call.tip from' creator' token' amount' message') now b)
posts_commute from from' creator creator' token token' amount amount' message message' now b apart =
    let apart' : (creator' == creator) ≡ false = ground (arith, apart) in
    book_path _ _ (λ a. refl) (λ c t. add_swap _ _ _)
      (λ c. elim (Bool-cases (c == creator)) [
        | inl same ↦
            let other : (c == creator') ≡ false = ground (arith, same, apart) in
            rw (same, other, apart) refl
        | inr other ↦ rw (apart', other) refl
      ])
      refl

module _ {h : Host} (maps : MapLaws h) (tokens : TokenLaws h) where
  -- If two tips to different creators return in either order from a reachable state, then the views
  -- that make up the book are the same after both orders: whoever comes first makes no difference to
  -- a profile, a balance, a history or the fee.
  pub tips_commute :
      (from from' creator creator' token token' : Address) (amount amount' : ℤ)
      (message message' : Text) (e e₁ e₂ e₁' e₂' : Env h)
      → Reach tokens e
      → (creator == creator') ≡ false
      → execute (Call.tip from creator token amount message) e ≡ ok (tt, e₁)
      → execute (Call.tip from' creator' token' amount' message') e₁ ≡ ok (tt, e₂)
      → execute (Call.tip from' creator' token' amount' message') e ≡ ok (tt, e₁')
      → execute (Call.tip from creator token amount message) e₁' ≡ ok (tt, e₂')
      → book e₂ ≡ book e₂'
  tips_commute from from' creator creator' token token' amount amount' message message' e e₁ e₂ e₁'
        e₂' r apart p₁ p₂ p₁' p₂' =
      let c = Call.tip from creator token amount message in
      let c' = Call.tip from' creator' token' amount' message' in
      let one = (refines maps tokens c e e₁ r p₁).1 in
      let two = (refines maps tokens c' e₁ e₂ (next r (call c e₁ p₁)) p₂).1 in
      let one' = (refines maps tokens c' e e₁' r p₁').1 in
      let two' = (refines maps tokens c e₁' e₂' (next r (call c' e₁' p₁')) p₂').1 in
      let same₁ : e₁.timestamp ≡ e.timestamp = rw (executed c e e₁ p₁).1.result refl in
      let same₁' : e₁'.timestamp ≡ e.timestamp = rw (executed c' e e₁' p₁').1.result refl in
      rw (two, one, two', one', same₁, same₁')
        (posts_commute from from' creator creator' token token' amount amount' message message'
          e.timestamp (book e) apart)
