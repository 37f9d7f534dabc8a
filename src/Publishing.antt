-- ===== src/Publishing.antt =====
-- The events that the functions of src/lib.rs publish.
use stellar_tip_contract.Base.{◌≡◌, refl, ◌∷◌, String}
use stellar_tip_contract.Host.{Host}
use stellar_tip_contract.Types.{
  Payload, event_init, event_admin_changed, event_paused, event_unpaused, event_fee_changed,
  event_fee_recipient_changed, event_max_creators_changed, event_max_tips_changed,
  event_min_tip_changed, event_creator_registered, event_profile_updated,
  event_creator_unregistered, event_tip_sent, event_withdraw,
}
use stellar_tip_contract.Env.{Env, ok}
use stellar_tip_contract.Contract.{Call, execute}
use stellar_tip_contract.Outcome.Calls.{Done, executed}
use stellar_tip_contract.Access.{caller_of}

-- The topic of the event that a call publishes.
abbrev pub topic_of : Call → String
topic_of (Call.init _ _ _ _ _ _) = event_init
topic_of (Call.set_admin _ _) = event_admin_changed
topic_of (Call.pause _) = event_paused
topic_of (Call.unpause _) = event_unpaused
topic_of (Call.set_fee_percentage _ _) = event_fee_changed
topic_of (Call.set_fee_recipient _ _) = event_fee_recipient_changed
topic_of (Call.set_max_creators _ _) = event_max_creators_changed
topic_of (Call.set_max_tips_per_creator _ _) = event_max_tips_changed
topic_of (Call.set_min_tip_amount _ _) = event_min_tip_changed
topic_of (Call.register _ _ _ _) = event_creator_registered
topic_of (Call.update_profile _ _ _) = event_profile_updated
topic_of (Call.unregister _) = event_creator_unregistered
topic_of (Call.tip _ _ _ _ _) = event_tip_sent
topic_of (Call.withdraw _ _ _) = event_withdraw

module _ {h : Host} where
  -- A call that returns publishes exactly one event, with the topic of the call and the caller.
  pub one_event :
      (c : Call) (e e' : Env h)
      → execute c e ≡ ok (tt, e')
      → (payload : Payload) × (e'.events
          ≡ (record { topic = topic_of c; subject = caller_of c; payload = payload }) ∷ e.events)
  one_event c e e' p = by c (executed c e e' p)
    where
      by :
          (c : Call)
          → Done c e e'
          → (payload : Payload) × (e'.events
              ≡ (record { topic = topic_of c; subject = caller_of c; payload = payload })
                ∷ e.events)
      by (Call.init _ _ _ _ _ _) o = rw o.result (_, refl)
      by (Call.set_admin _ _) o = rw o.1.result (_, refl)
      by (Call.pause _) o = rw o.result (_, refl)
      by (Call.unpause _) o = rw o.result (_, refl)
      by (Call.set_fee_percentage _ _) o = rw o.1.result (_, refl)
      by (Call.set_fee_recipient _ _) o = rw o.1.result (_, refl)
      by (Call.set_max_creators _ _) o = rw o.result (_, refl)
      by (Call.set_max_tips_per_creator _ _) o = rw o.result (_, refl)
      by (Call.set_min_tip_amount _ _) o = rw o.1.result (_, refl)
      by (Call.register _ _ _ _) o = rw o.result (_, refl)
      by (Call.update_profile _ _ _) o = rw o.result (_, refl)
      by (Call.unregister _) o = rw o.result (_, refl)
      by (Call.tip _ _ _ _ _) o = rw o.1.result (_, refl)
      by (Call.withdraw _ _ _) o = rw o.result (_, refl)
