-- ===== src/System/Invariant.antt =====
-- What holds of the contract whatever its users do.

use stellar_tip_contract.Base.{pos, ◌≡◌, refl, false, [], List, ◌∷◌, none, arith, int_laws}
use stellar_tip_contract.Host.{Host, MapLaws, TokenLaws, Address}
use stellar_tip_contract.Env.{Env}
use stellar_tip_contract.Contract.{Call}
use stellar_tip_contract.Outcome.Calls.{Done, executed}
use stellar_tip_contract.System.Kind.{
  Kind, a_setting, an_init, a_registration, an_update, an_unregistration, a_tip, a_withdrawal, kind,
}
use stellar_tip_contract.System.Registry.{RegistryValid, Kind-RegistryValid}
use stellar_tip_contract.System.Config.{ConfigValid, Done-ConfigValid}
use stellar_tip_contract.System.Count.{CountValid, Kind-CountValid}
use stellar_tip_contract.System.Tokens.{zero_fits, TokensValid, Kind-TokensValid}
use stellar_tip_contract.System.History.{HistoryValid, Kind-HistoryValid}
use stellar_tip_contract.System.Contents.{ContentsValid, Kind-ContentsValid}
use stellar_tip_contract.System.Solvency.{SolvencyValid, Kind-SolvencyValid, total}
use stellar_tip_contract.System.Reach.{Step, call, outside, Reach, start, next}

Kind-authorized :
    {h : Host} (e e' : Env h)
    → Kind e e'
    → (e'.authorized ≡ e.authorized) × (e'.current_contract_address ≡ e.current_contract_address)
Kind-authorized e e' (a_setting _ _ _ _ _ _ _ _ _ _ _ o) = rw o.result (refl, refl)
Kind-authorized e e' (an_init _ _ _ _ _ _ o) = rw o.result (refl, refl)
Kind-authorized e e' (a_registration _ _ _ _ o) = rw o.result (refl, refl)
Kind-authorized e e' (an_update _ _ _ o) = rw o.result (refl, refl)
Kind-authorized e e' (an_unregistration _ o) = rw o.result (refl, refl)
Kind-authorized e e' (a_tip _ _ _ _ _ _ o) = rw o.result (refl, refl)
Kind-authorized e e' (a_withdrawal _ _ _ o) = rw o.result (refl, refl)

module _ {h : Host} (maps : MapLaws h) (tokens : TokenLaws h) where
  pub record IsValid (e : Env h) : Type 0 where
    pub self : e.authorized e.current_contract_address ≡ false
    pub config : ConfigValid e
    pub registry : RegistryValid e
    pub count : CountValid e
    pub history : HistoryValid e
    pub contents : ContentsValid e
    pub tracking : TokensValid maps e
    pub solvency : SolvencyValid tokens e

  Done-IsValid : (c : Call) (e e' : Env h) → Done c e e' → IsValid e → IsValid e'
  Done-IsValid c e e' o v =
      let k = kind c e e' o in
      let same = Kind-authorized e e' k in
      record {
        self = rw (same.0, same.1) v.self;
        config = Done-ConfigValid c e e' o v.config;
        registry = Kind-RegistryValid e e' k v.registry;
        count = Kind-CountValid e e' k v.count;
        history = Kind-HistoryValid e e' k v.history;
        contents = Kind-ContentsValid e e' k v.contents;
        tracking = Kind-TokensValid maps e e' v.config.fee_range k v.tracking;
        solvency = Kind-SolvencyValid tokens e e' v.self v.config k v.solvency;
      }

  pub Step-IsValid : {e e' : Env h} → Step tokens e e' → IsValid e → IsValid e'
  Step-IsValid {e} (call c e' p) v = Done-IsValid c e e' (executed c e e' p) v
  Step-IsValid {e} (outside authorized timestamp ledger self grows) v = record {
    self = self;
    config = v.config;
    registry = v.registry;
    count = v.count;
    history = v.history;
    contents = v.contents;
    tracking = v.tracking;
    solvency = λ t cs d. omega (arith, v.solvency t cs d, grows t);
  }

  total-empty : (cs : List Address) (t : Address) → total cs t (λ c u. none) ≡ pos 0
  total-empty [] t = refl
  total-empty (c ∷ cs) t = rw (total-empty cs t) (omega int_laws)

  pub Reach-IsValid : {e : Env h} → Reach tokens e → IsValid e
  Reach-IsValid (start authorized contract timestamp ledger self nonneg) = record {
    self = self;
    config = record {
      fee_range = omega arith;
      minimum_range = omega arith;
      not_self = λ r p. cc p;
      complete = λ p. p;
    };
    registry = record { owner = λ a p q. cc q; owned = λ u a q. absurd (ground (arith, q)) };
    count = record {
      creators = [];
      distinct = tt;
      listed = λ a. refl;
      counted = refl;
      fresh = λ _. refl;
    };
    history = record { no_gap = λ c i p. absurd (omega (arith, p)); has_count = λ c. refl };
    contents = record { short = λ c p q. cc q; positive = λ c i t q. cc q };
    tracking = record {
      in_range = λ c t. zero_fits;
      nonneg = λ c t. omega arith;
      tracked = λ c t p. ground (arith, p);
      owned = λ c t p. ground (arith, p);
    };
    solvency = λ t cs d. rw (total-empty cs t) (nonneg t);
  }
  Reach-IsValid (next r s) = Step-IsValid s (Reach-IsValid r)
