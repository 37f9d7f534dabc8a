-- ===== src/Env/Decides.antt =====
-- Which panic an action ends in, when the code's tests are listed in their order: the first test that
-- holds gives the panic, and when none holds the action returns.
use stellar_tip_contract.Base.{
  ℤ, ◌≡◌, refl, Bool, true, false, not, Option, none, some, is_some, List, [], ◌∷◌, ⊤, Option-cases,
  inl, inr, if◌then◌else◌, arith,
}
use stellar_tip_contract.Host.{Host, Address}
use stellar_tip_contract.Types.{TipError, Panic, tip_error, unauthorized, overflow, token_error}
use stellar_tip_contract.Env.State.{Env}
use stellar_tip_contract.Env.Effects.{
  ok, panic, Action, pure, gets, or_panic, panic_if, checked, require_auth, token_transfer, ◌>>=◌,
}
use stellar_tip_contract.Env.Runs.{
  Runs, go_on, stop, go_gets, stop_or_panic, stop_checked, stop_if, stop_auth, ends_transfer,
  ends_pure,
}

-- The panic of the first test that holds.
abbrev pub first_panic : List (Bool × Panic) → Option Panic
first_panic [] = none
first_panic ((test, p) ∷ tests) = let rest = first_panic tests in if test then some p else rest

-- The action returns when there is no panic, and ends in the panic otherwise.
abbrev pub Ends : {h : Host} {A : Type 0} → Option Panic → Action h A → Env h → Type 0
Ends {h} {A} none m e = (a : A) × (e' : Env h) × Runs m e (ok (a, e'))
Ends (some p) m e = Runs m e (panic p)

pub record Decided {h : Host} {A : Type 0} (m : Action h A) (e : Env h) (o : Option Panic)
    : Type 0 where
  pub ends : Ends o m e

module _ {h : Host} {A : Type 0} {m : Action h A} {e : Env h} where
  pub decides : {a : A} {e' : Env h} → Runs m e (ok (a, e')) → Decided m e none
  decides {a} {e'} r = record { ends = (a, e', r) }

  refuses : {p : Panic} → Runs m e (panic p) → Decided m e (some p)
  refuses r = record { ends = r }

  pub decide_test :
      (test : Bool) (p : Panic) (o : Option Panic)
      → (test ≡ true → Runs m e (panic p))
      → (test ≡ false → Decided m e o)
      → Decided m e (if test then some p else o)
  decide_test true p o stops goes = refuses (stops refl)
  decide_test false p o stops goes = goes refl

module _ {h : Host} {A B : Type 0} {e : Env h} where
  pub decide_on :
      (m : Action h A) (f : A → Action h B) {a : A} {e' : Env h} (o : Option Panic)
      → Runs m e (ok (a, e'))
      → Decided (f a) e' o
      → Decided (m >>= f) e o
  decide_on m f none r d = decides (go_on m f r d.ends.2)
  decide_on m f (some p) r d = refuses (go_on m f r d.ends)

  -- What follows cannot panic.
  pub decide_pure :
      (m : Action h A) (b : A → B) (o : Option Panic)
      → Decided m e o
      → Decided (m >>= λ a. pure (b a)) e o
  decide_pure m b none d = decides (go_on _ _ d.ends.2 (ends_pure _))
  decide_pure m b (some p) d = refuses (stop _ _ d.ends)

  pub decide_gets :
      (g : Env h → A) (f : A → Action h B) (o : Option Panic)
      → Decided (f (g e)) e o
      → Decided (gets g >>= f) e o
  decide_gets g f none d = decides (go_gets g f d.ends.2)
  decide_gets g f (some p) d = refuses (go_gets g f d.ends)

  pub decide_checked :
      (fits : A → Bool) (a : A) (f : A → Action h B) (o : Option Panic)
      → (fits a ≡ true → Decided (f a) e o)
      → Decided (checked fits a >>= f) e (if not (fits a) then some overflow else o)
  unfolding checked
  decide_checked fits a f o k =
      decide_test (not (fits a)) overflow o (λ p. stop_checked fits a f (ground (arith, p)))
        (λ p.
          let good : fits a ≡ true = ground (arith, p) in
          decide_on _ _ {a = a} {e' = e} o (record { ends = rw good refl }) (k good))

  pub decide_or_panic :
      (c : Option A) (error : TipError) (f : A → Action h B) (o : Option Panic)
      → ((a : A) → c ≡ some a → Decided (f a) e o)
      → Decided (or_panic c error >>= f) e (if not (is_some c) then some (tip_error error) else o)
  unfolding or_panic
  decide_or_panic none error f o k = refuses (stop_or_panic none error f refl)
  decide_or_panic (some a) error f o k =
      decide_on _ _ {a = a} {e' = e} o (record { ends = refl }) (k a refl)

module _ {h : Host} {B : Type 0} {e : Env h} where
  pub decide_if :
      (test : Bool) (error : TipError) (f : ⊤ → Action h B) (o : Option Panic)
      → (test ≡ false → Decided (f tt) e o)
      → Decided (panic_if test error >>= f) e (if test then some (tip_error error) else o)
  unfolding panic_if
  decide_if test error f o k =
      decide_test test (tip_error error) o (stop_if test error f)
        (λ p. decide_on _ _ {a = tt} {e' = e} o (record { ends = rw p refl }) (k p))

  pub decide_auth :
      (a : Address) (f : ⊤ → Action h B) (o : Option Panic)
      → Decided (f tt) e o
      → Decided (require_auth a >>= f) e (if not (e.authorized a) then some unauthorized else o)
  unfolding require_auth
  decide_auth a f o k =
      decide_test (not (e.authorized a)) unauthorized o (λ p. stop_auth a f (ground (arith, p)))
        (λ p. decide_on _ _ {a = tt} {e' = e} o (record { ends = ground (arith, p) }) k)

  pub decide_transfer :
      (token from to : Address) (amount : ℤ) (f : ⊤ → Action h B) (o : Option Panic)
      → ((l : h.Ledger)
          → h.transfer e.ledger token from to amount ≡ some l
          → Decided (f tt) (record e { ledger = l }) o)
      → Decided
          (token_transfer token from to amount >>= f)
          e
          (if not (is_some (h.transfer e.ledger token from to amount)) then some token_error else o)
  unfolding token_transfer
  decide_transfer token from to amount f o k =
      elim (Option-cases (h.transfer e.ledger token from to amount)) [
        | inl fails ↦
            rw fails (refuses (stop _ _ (record { ends = rw (fails, token_transfer) refl })))
        | inr (l, moves) ↦
            rw moves (decide_on _ _ o (ends_transfer token from to amount moves) (k l moves))
      ]
