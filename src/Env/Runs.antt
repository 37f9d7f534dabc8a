-- ===== src/Env/Runs.antt =====
-- How an action runs on a given environment, one step at a time: where it panics, and where it goes
-- on.
use stellar_tip_contract.Base.{
  ℤ, ◌≡◌, refl, sym, subst, Bool, true, false, Option, none, some, ◌∷◌, ⊤, String, if◌then◌else◌,
}
use stellar_tip_contract.Host.{Host, Address}
use stellar_tip_contract.Types.{
  TipError, Panic, tip_error, unauthorized, overflow, DataKey, Payload, ttl_threshold, ttl_extend,
}
use stellar_tip_contract.Env.State.{Env, InstanceStorage, PersistentStorage, of_instance, of_entry}
use stellar_tip_contract.Env.Effects.{
  Result, ok, panic, Action, pure, publish, gets, or_panic, panic_if, checked, require_auth,
  modify_instance, modify_persistent, token_transfer, extend_instance_ttl, extend_persistent_ttl,
  has_entry, ◌>>=◌,
}
use stellar_tip_contract.Env.Ensures.{continue}

-- The action ends on the environment with the result.
pub record Runs {h : Host} {A : Type 0} (m : Action h A) (e : Env h) (r : Result (A × Env h))
    : Type 0 where
  pub ends : m e ≡ r

module _ {h : Host} {A B : Type 0} {e : Env h} where
  pub go_on :
      (m : Action h A) (f : A → Action h B) {a : A} {e' : Env h} {r : Result (B × Env h)}
      → Runs m e (ok (a, e'))
      → Runs (f a) e' r
      → Runs (m >>= f) e r
  unfolding ◌>>=◌
  go_on m f {r} p q = record { ends = subst (λ s. continue s f ≡ r) (sym p.ends) q.ends }

  pub stop :
      (m : Action h A) (f : A → Action h B) {p : Panic}
      → Runs m e (panic p)
      → Runs (m >>= f) e (panic p)
  unfolding ◌>>=◌
  stop m f {p} q = record { ends = subst (λ s. continue s f ≡ panic p) (sym q.ends) refl }

  pub go_gets :
      (g : Env h → A) (f : A → Action h B) {r : Result (B × Env h)}
      → Runs (f (g e)) e r
      → Runs (gets g >>= f) e r
  unfolding ◌>>=◌
  go_gets g f q = record { ends = q.ends }

  pub go_or_panic :
      (o : Option A) (error : TipError) (f : A → Action h B) {a : A} {r : Result (B × Env h)}
      → o ≡ some a
      → Runs (f a) e r
      → Runs (or_panic o error >>= f) e r
  go_or_panic o error f {a} p q =
      go_on _ _ {a = a} {e' = e} (record { ends = unfold or_panic in rw p refl }) q

  pub stop_or_panic :
      (o : Option A) (error : TipError) (f : A → Action h B)
      → o ≡ none
      → Runs (or_panic o error >>= f) e (panic (tip_error error))
  stop_or_panic o error f p = stop _ _ (record { ends = unfold or_panic in rw p refl })

  pub stop_checked :
      (fits : A → Bool) (a : A) (f : A → Action h B)
      → fits a ≡ false
      → Runs (checked fits a >>= f) e (panic overflow)
  stop_checked fits a f p = stop _ _ (record { ends = unfold checked in rw p refl })

  pub go_checked :
      (fits : A → Bool) (a : A) (f : A → Action h B) {r : Result (B × Env h)}
      → fits a ≡ true
      → Runs (f a) e r
      → Runs (checked fits a >>= f) e r
  go_checked fits a f p q =
      go_on _ _ {a = a} {e' = e} (record { ends = unfold checked in rw p refl }) q

module _ {h : Host} {B : Type 0} {e : Env h} where
  pub go_panic_if :
      (test : Bool) (error : TipError) (f : ⊤ → Action h B) {r : Result (B × Env h)}
      → test ≡ false
      → Runs (f tt) e r
      → Runs (panic_if test error >>= f) e r
  go_panic_if test error f p q =
      go_on _ _ {a = tt} {e' = e} (record { ends = unfold panic_if in rw p refl }) q

  pub stop_if :
      (test : Bool) (error : TipError) (f : ⊤ → Action h B)
      → test ≡ true
      → Runs (panic_if test error >>= f) e (panic (tip_error error))
  stop_if test error f p = stop _ _ (record { ends = unfold panic_if in rw p refl })

  pub go_auth :
      (a : Address) (f : ⊤ → Action h B) {r : Result (B × Env h)}
      → e.authorized a ≡ true
      → Runs (f tt) e r
      → Runs (require_auth a >>= f) e r
  go_auth a f p q =
      go_on _ _ {a = tt} {e' = e} (record { ends = unfold require_auth in rw p refl }) q

  pub stop_auth :
      (a : Address) (f : ⊤ → Action h B)
      → e.authorized a ≡ false
      → Runs (require_auth a >>= f) e (panic unauthorized)
  stop_auth a f p = stop _ _ (record { ends = unfold require_auth in rw p refl })

  pub go_instance :
      (g : InstanceStorage → InstanceStorage) (f : ⊤ → Action h B) {r : Result (B × Env h)}
      → Runs (f tt) (record e { inst = g e.inst }) r
      → Runs (modify_instance g >>= f) e r
  unfolding ◌>>=◌
  go_instance g f q = record { ends = q.ends }

  pub go_persistent :
      (g : PersistentStorage h.TokenSet → PersistentStorage h.TokenSet) (f : ⊤ → Action h B)
      {r : Result (B × Env h)}
      → Runs (f tt) (record e { pers = g e.pers }) r
      → Runs (modify_persistent g >>= f) e r
  unfolding ◌>>=◌
  go_persistent g f q = record { ends = q.ends }

  pub go_extend_instance :
      (f : ⊤ → Action h B) {r : Result (B × Env h)}
      → Runs
          (f tt)
          (record e { extensions = of_instance ttl_threshold ttl_extend ∷ e.extensions })
          r
      → Runs (extend_instance_ttl >>= f) e r
  unfolding ◌>>=◌
  go_extend_instance f q = record { ends = q.ends }

  pub go_extend :
      (key : DataKey) (f : ⊤ → Action h B) {r : Result (B × Env h)}
      → has_entry e.pers key ≡ true
      → Runs
          (f tt)
          (record e { extensions = of_entry key ttl_threshold ttl_extend ∷ e.extensions })
          r
      → Runs (extend_persistent_ttl key >>= f) e r
  go_extend key f p q =
      go_on _ _ {a = tt}
        {e' = record e { extensions = of_entry key ttl_threshold ttl_extend ∷ e.extensions }}
        (record { ends = unfold extend_persistent_ttl in rw p refl }) q

  pub go_transfer :
      (token from to : Address) (amount : ℤ) (f : ⊤ → Action h B) {l : h.Ledger}
      {r : Result (B × Env h)}
      → h.transfer e.ledger token from to amount ≡ some l
      → Runs (f tt) (record e { ledger = l }) r
      → Runs (token_transfer token from to amount >>= f) e r
  unfolding token_transfer
  go_transfer token from to amount f {l} p q =
      go_on _ _ {a = tt} {e' = record e { ledger = l }}
        (record { ends = rw (p, token_transfer) refl }) q

module _ {h : Host} {e : Env h} where
  pub go_then :
      {A : Type 0} (b : Bool) (m n : Action h A) {r : Result (A × Env h)}
      → b ≡ true
      → Runs m e r
      → Runs (if b then m else n) e r
  go_then b m n p q = rw p q

  pub go_else :
      {A : Type 0} (b : Bool) (m n : Action h A) {r : Result (A × Env h)}
      → b ≡ false
      → Runs n e r
      → Runs (if b then m else n) e r
  go_else b m n p q = rw p q

  pub ends_pure : {A : Type 0} (a : A) → Runs (pure a) e (ok (a, e))
  unfolding pure
  ends_pure a = record { ends = refl }

  pub ends_publish :
      (topic : String) (subject : Address) (payload : Payload)
      → Runs (publish topic subject payload) e (
          ok (
            tt,
            record e {
              events = (record { topic = topic; subject = subject; payload = payload }) ∷ e.events;
            },
          ))
  unfolding publish
  ends_publish topic subject payload = record { ends = refl }

  pub ends_persistent :
      (g : PersistentStorage h.TokenSet → PersistentStorage h.TokenSet)
      → Runs (modify_persistent g) e (ok (tt, record e { pers = g e.pers }))
  unfolding modify_persistent
  ends_persistent g = record { ends = refl }

  pub ends_extend :
      (key : DataKey)
      → has_entry e.pers key ≡ true
      → Runs
          (extend_persistent_ttl key)
          e
          (ok (tt, record e { extensions = of_entry key ttl_threshold ttl_extend ∷ e.extensions }))
  unfolding extend_persistent_ttl
  ends_extend key p = record { ends = rw p refl }

  pub ends_transfer :
      (token from to : Address) (amount : ℤ) {l : h.Ledger}
      → h.transfer e.ledger token from to amount ≡ some l
      → Runs (token_transfer token from to amount) e (ok (tt, record e { ledger = l }))
  unfolding token_transfer
  ends_transfer token from to amount p = record { ends = rw (p, token_transfer) refl }

  pub ends_instance :
      (g : InstanceStorage → InstanceStorage)
      → Runs (modify_instance g) e (ok (tt, record e { inst = g e.inst }))
  unfolding modify_instance
  ends_instance g = record { ends = refl }

  pub ends_checked :
      {A : Type 0} (fits : A → Bool) (a : A) → fits a ≡ true → Runs (checked fits a) e (ok (a, e))
  unfolding checked
  ends_checked fits a p = record { ends = rw p refl }

  pub ends_extend_instance :
      Runs extend_instance_ttl e
        (ok (tt, record e { extensions = of_instance ttl_threshold ttl_extend ∷ e.extensions }))
  unfolding extend_instance_ttl
  ends_extend_instance = record { ends = refl }
