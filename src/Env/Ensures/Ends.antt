-- ===== src/Env/Ensures/Ends.antt =====
-- The rule for each way in which a function ends.
use stellar_tip_contract.Base.{
  ℤ, ◌≡◌, refl, Bool, true, false, Option, none, some, ◌∷◌, ⊤, if◌then◌else◌,
}
use stellar_tip_contract.Host.{Host, Address}
use stellar_tip_contract.Types.{TipError, token_error, DataKey, ttl_threshold, ttl_extend}
use stellar_tip_contract.Env.State.{Env, PersistentStorage, of_instance, of_entry}
use stellar_tip_contract.Env.Effects.{
  Result, ok, panic, Action, panic_if, checked, modify_persistent, token_transfer,
  extend_instance_ttl, extend_persistent_ttl, has_entry,
}
use stellar_tip_contract.Env.Ensures.Core.{Holds, Ensures, Holds-if}

module _ {h : Host} {e : Env h} {Q : ⊤ → Env h → Type 0} where
  pub by_panic_if :
      (b : Bool) (error : TipError) → (b ≡ false → Q tt e) → Ensures (panic_if b error) e Q
  unfolding panic_if
  by_panic_if true error k = record { holds = tt }
  by_panic_if false error k = record { holds = k refl }

  pub by_extend_instance :
      Q tt (record e { extensions = of_instance ttl_threshold ttl_extend ∷ e.extensions })
      → Ensures extend_instance_ttl e Q
  unfolding extend_instance_ttl
  by_extend_instance q = record { holds = q }

  pub by_extend :
      (key : DataKey)
      → (has_entry e.pers key ≡ true
          → Q tt (record e { extensions = of_entry key ttl_threshold ttl_extend ∷ e.extensions }))
      → Ensures (extend_persistent_ttl key) e Q
  unfolding extend_persistent_ttl
  by_extend key k = record { holds = Holds-if (has_entry e.pers key) _ _ _ k (λ _. tt) }

  pub by_persistent :
      (g : PersistentStorage h.TokenSet → PersistentStorage h.TokenSet)
      → Q tt (record e { pers = g e.pers })
      → Ensures (modify_persistent g) e Q
  unfolding modify_persistent
  by_persistent g q = record { holds = q }

  pub by_transfer :
      (token from to : Address) (amount : ℤ)
      → ((l : h.Ledger)
          → h.transfer e.ledger token from to amount ≡ some l
          → Q tt (record e { ledger = l }))
      → Ensures (token_transfer token from to amount) e Q
  by_transfer token from to amount k = record {
    holds = unfold token_transfer in go (h.transfer e.ledger token from to amount) k;
  }
    where
      go :
          (o : Option h.Ledger)
          → ((l : h.Ledger) → o ≡ some l → Q tt (record e { ledger = l }))
          → Holds
              (elim o [ none ↦ panic token_error | some l ↦ ok (tt, record e { ledger = l }) ])
              Q
      go none k' = tt
      go (some l) k' = k' l refl

  -- A branch that stands last.
  pub by_if :
      (b : Bool) (m n : Action h ⊤)
      → (b ≡ true → Ensures m e Q)
      → (b ≡ false → Ensures n e Q)
      → Ensures (if b then m else n) e Q
  by_if true m n k l = k refl
  by_if false m n k l = l refl

pub by_checked :
    {h : Host} {A : Type 0} {e : Env h} {Q : A → Env h → Type 0} (fits : A → Bool) (a : A)
    → (fits a ≡ true → Q a e)
    → Ensures (checked fits a) e Q
unfolding checked
by_checked fits a k = record { holds = Holds-if (fits a) _ _ _ k (λ _. tt) }

-- A weaker statement.
pub weaken :
    {h : Host} {A : Type 0} (m : Action h A) {e : Env h} {P Q : A → Env h → Type 0}
    → Ensures m e P
    → ((a : A) (e' : Env h) → P a e' → Q a e')
    → Ensures m e Q
weaken {h} {A} m {e} {P} {Q} c k = record { holds = go (m e) c.holds }
  where
    go : (r : Result (A × Env h)) → Holds r P → Holds r Q
    go (ok (a, e')) p = k a e' p
    go (panic _) p = tt
