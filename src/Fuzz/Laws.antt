-- ===== src/Fuzz/Laws.antt =====
-- What the tests rely on in the SDK's test environment, and how a test goes on after a step.
use stellar_tip_contract.Base.{
  ℕ, ℤ, pos, ◌+ℤ◌, ◌==◌, ◌&&◌, ◌≡◌, refl, subst, Bool, true, false, Option, none, some, ⊤,
  if◌then◌else◌, leb_ℤ, arith, IsDistinct, [], ◌∷◌,
}
use stellar_tip_contract.Host.{Host, Address, moved}
use stellar_tip_contract.Types.{Panic}
use stellar_tip_contract.Env.{Env, Action, ok, fits_i128}
use stellar_tip_contract.Env.Ensures.{Ensures, returned}
use stellar_tip_contract.Env.Decides.{Decided}
use stellar_tip_contract.Fuzz.Environment.{
  TestUtils, Sandbox, TestResult, Test, passed, pure, call, checked, assert_eq, assume, mint, ◌>>=◌,
}

-- The documented behaviour of the test utilities: each address is made once, different names are
-- different symbols, a new token contract
-- has no holders, and mints and transfers succeed where the holder's balance is enough and the
-- recipient's stays in range, and change these balances alone.
pub record TestLaws (h : Host) (sdk : TestUtils h) : Type 0 where
  pub distinct : (m n : ℕ) → (m == n) ≡ false → (sdk.address m == sdk.address n) ≡ false
  pub symbols : IsDistinct (
      sdk.symbol "a"
      ∷ sdk.symbol "b"
      ∷ sdk.symbol "c"
      ∷ sdk.symbol "d"
      ∷ sdk.symbol "e"
      ∷ sdk.symbol "creator1"
      ∷ sdk.symbol "creator2"
      ∷ [])
  pub empty : (token a : Address) → sdk.balance sdk.ledger token a ≡ pos 0
  pub mints :
      (l : h.Ledger) (token to : Address) (n : ℕ)
      → fits_i128 (sdk.balance l token to +ℤ pos n) ≡ true
      → (l' : h.Ledger) × (sdk.mint l token to (pos n) ≡ some l')
        × ((u a : Address)
            → sdk.balance l' u a
              ≡ sdk.balance l u a +ℤ (if u == token && a == to then pos n else pos 0))
  pub moves :
      (l : h.Ledger) (token from to : Address) (n : ℕ)
      → (from == to) ≡ false
      → leb_ℤ (pos n) (sdk.balance l token from) ≡ true
      → fits_i128 (sdk.balance l token to +ℤ pos n) ≡ true
      → (l' : h.Ledger) × (h.transfer l token from to (pos n) ≡ some l')
  pub balance-transfer :
      (l l' : h.Ledger) (token from to : Address) (amount : ℤ)
      → (from == to) ≡ false
      → h.transfer l token from to amount ≡ some l'
      → (u a : Address)
      → sdk.balance l' u a
        ≡ (if u == token then moved (sdk.balance l token a) from to amount a else sdk.balance l u a)

pub itself : (a : Address) → (a == a) ≡ true
itself a = ground arith

-- The test ends from the sandbox with the result.
pub record Goes {h : Host} {A : Type 0} (m : Test h A) (w : Sandbox h)
    (r : TestResult (A × Sandbox h)) : Type 0 where
  pub ends : m w ≡ r

-- A step of a proof that a test ends, before the proof for what follows.
infixr 2 ◌<|◌
abbrev pub ◌<|◌ : {A B : Type 0} → (A → B) → A → B
step <| rest = step rest

module _ {h : Host} {B : Type 0} {w : Sandbox h} {r : TestResult (B × Sandbox h)} where
  pub on :
      {A : Type 0} (m : Test h A) (f : A → Test h B) {a : A} {w' : Sandbox h}
      → m w ≡ passed (a, w')
      → Goes (f a) w' r
      → Goes (m >>= f) w r
  unfolding ◌>>=◌
  on m f p g = record { ends = rw (p, ◌>>=◌) g.ends }

  pub on_call :
      {A : Type 0} (m : Action h A) (f : A → Test h B) {a : A} {e : Env h}
      → m w.env ≡ ok (a, e)
      → Goes (f a) (record w { env = e }) r
      → Goes (call m >>= f) w r
  unfolding ◌>>=◌
  on_call m f p g = record { ends = rw (p, ◌>>=◌) g.ends }

  pub on_mint :
      (sdk : TestUtils h) (token to : Address) (amount : ℤ) (f : ⊤ → Test h B) {l : h.Ledger}
      → sdk.mint w.env.ledger token to amount ≡ some l
      → Goes (f tt) (record w { env = record w.env { ledger = l } }) r
      → Goes (mint sdk token to amount >>= f) w r
  unfolding ◌>>=◌ mint
  on_mint sdk token to amount f p g = record { ends = rw (p, ◌>>=◌) g.ends }

  pub on_checked :
      (x : ℤ) (f : ℤ → Test h B) → fits_i128 x ≡ true → Goes (f x) w r → Goes (checked x >>= f) w r
  unfolding ◌>>=◌
  on_checked x f p g = record { ends = rw (p, ◌>>=◌) g.ends }

  pub on_assume :
      (test : Bool) (f : ⊤ → Test h B)
      → test ≡ true
      → Goes (f tt) w r
      → Goes (assume test >>= f) w r
  unfolding ◌>>=◌
  on_assume test f p g = record { ends = rw (p, ◌>>=◌) g.ends }

  pub on_assert :
      (x y : ℤ) (f : ⊤ → Test h B) → x ≡ y → Goes (f tt) w r → Goes (assert_eq x y >>= f) w r
  unfolding ◌>>=◌
  on_assert x y f p g =
      let same : (leb_ℤ x y && leb_ℤ y x) ≡ true = ground (arith, p) in
      record { ends = rw (same, ◌>>=◌) g.ends }

  -- A test of the code itself, of which one branch is taken.
  pub on_then :
      (test : Bool) (m n : Test h B) → test ≡ true → Goes m w r → Goes (if test then m else n) w r
  on_then test m n p g = record { ends = rw p g.ends }

  pub on_else :
      (test : Bool) (m n : Test h B) → test ≡ false → Goes n w r → Goes (if test then m else n) w r
  on_else test m n p g = record { ends = rw p g.ends }

pub at_end : {h : Host} {A : Type 0} (a : A) (w : Sandbox h) → Goes (pure a) w (passed (a, w))
unfolding pure
at_end a w = record { ends = refl }

pub at_assert :
    {h : Host} (x y : ℤ) (w : Sandbox h) → x ≡ y → Goes (assert_eq x y) w (passed (tt, w))
unfolding assert_eq
at_assert x y w p =
    let same : (leb_ℤ x y && leb_ℤ y x) ≡ true = ground (arith, p) in record { ends = rw same refl }

pub at_call :
    {h : Host} {A : Type 0} (m : Action h A) (w : Sandbox h) {a : A} {e : Env h}
    → m w.env ≡ ok (a, e)
    → call m w ≡ passed (a, record w { env = e })
unfolding call
at_call m w p = rw (p, call) refl

-- A call that panics in none of its cases returns, and has done what it ensures.
pub returned_by :
    {h : Host} {A : Type 0} (m : Action h A) {e : Env h} {Q : A → Env h → Type 0} {o : Option Panic}
    → Decided m e o
    → o ≡ none
    → Ensures m e Q
    → (a : A) × (e' : Env h) × (m e ≡ ok (a, e')) × Q a e'
returned_by m {e} {Q} d p c =
    let (a, e', r) = (subst (Decided m e) p d).ends in (a, e', r.ends, returned m c a e' r.ends)
