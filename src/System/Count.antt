-- ===== src/System/Count.antt =====
-- `CreatorCount` is the number of the addresses that have a profile.
use stellar_tip_contract.Base.{
  subst, ℕ, ◌+◌, ◌==◌, ◌≡◌, refl, not, ◌&&◌, false, true, Option, List, [], ◌∷◌, is_some, unwrap_or,
  mem, IsDistinct, length, if◌then◌else◌, arith,
}
use stellar_tip_contract.Host.{Host, Address}
use stellar_tip_contract.Types.{CreatorProfile}
use stellar_tip_contract.Env.{Env}
use stellar_tip_contract.System.Kind.{
  Kind, a_setting, an_init, a_registration, an_update, an_unregistration, a_tip, a_withdrawal,
}

-- The list without its first occurrence of `a`.
abbrev erase : Address → List Address → List Address
erase a [] = []
erase a (x ∷ xs) = if a == x then xs else x ∷ erase a xs

mem-erase :
    (a b : Address) (xs : List Address)
    → IsDistinct xs
    → mem b (erase a xs) ≡ (not (b == a) && mem b xs)
mem-erase a b [] d = ground arith
mem-erase a b (x ∷ xs) d = ground (arith, mem-erase a b xs d.1)

erase-IsDistinct : (a : Address) (xs : List Address) → IsDistinct xs → IsDistinct (erase a xs)
erase-IsDistinct a [] d = tt
erase-IsDistinct a (x ∷ xs) d = ground (arith, erase-IsDistinct a xs d.1, mem-erase a x xs d.1)

length-erase :
    (a : Address) (xs : List Address) → mem a xs ≡ true → length (erase a xs) + 1 ≡ length xs
length-erase a [] m = cc
length-erase a (x ∷ xs) m = ground (arith, length-erase a xs)

-- The count is the length of a list of all creators, each listed once; before `init` it is empty.
pub record IsCounted (admin : Option Address) (profile : Address → Option CreatorProfile)
    (count : Option ℕ) : Type 0 where
  pub creators : List Address
  pub distinct : IsDistinct creators
  pub listed : (a : Address) → is_some (profile a) ≡ mem a creators
  pub counted : unwrap_or count 0 ≡ length creators
  pub fresh : is_some admin ≡ false → creators ≡ []

module _ {h : Host} where
  abbrev pub CountValid : Env h → Type 0
  CountValid e = IsCounted e.inst.admin e.inst.profile e.inst.creator_count

  pub Kind-CountValid : (e e' : Env h) → Kind e e' → CountValid e → CountValid e'
  Kind-CountValid e e' (a_setting admin _ _ _ _ _ _ _ _ _ kept o) v = rw o.result (record {
    creators = v.creators;
    distinct = v.distinct;
    listed = v.listed;
    counted = v.counted;
    fresh = λ p. cc (p, kept);
  })
  Kind-CountValid e e' (an_init _ _ _ _ _ _ o) v =
      let none_yet = v.fresh o.uninitialized in
      rw o.result (record {
        creators = [];
        distinct = tt;
        listed = λ a. subst (λ xs. is_some (e.inst.profile a) ≡ mem a xs) none_yet (v.listed a);
        counted = refl;
        fresh = λ _. refl;
      })
  Kind-CountValid e e' (a_registration caller username display_name bio o) v = rw o.result (record {
    creators = caller ∷ v.creators;
    distinct = (rw (← v.listed caller) o.unregistered, v.distinct);
    listed = λ a. ground (arith, v.listed a);
    counted = ground (arith, v.counted);
    fresh = λ p. cc (p, o.is_open.initialized);
  })
  Kind-CountValid e e' (an_update caller display_name bio o) v = rw o.result (record {
    creators = v.creators;
    distinct = v.distinct;
    listed = λ a. ground (arith, v.listed a, o.found);
    counted = v.counted;
    fresh = v.fresh;
  })
  Kind-CountValid e e' (an_unregistration caller o) v =
      let was : mem caller v.creators ≡ true = ground (arith, v.listed caller, o.found) in
      rw o.result (record {
        creators = erase caller v.creators;
        distinct = erase-IsDistinct caller v.creators v.distinct;
        listed = λ a. rw (mem-erase caller a v.creators v.distinct) (ground (arith, v.listed a));
        counted = ground (arith, v.counted, length-erase caller v.creators was);
        fresh = λ p. cc (p, o.is_open.initialized);
      })
  Kind-CountValid e e' (a_tip _ _ _ _ _ _ o) v = rw o.result v
  Kind-CountValid e e' (a_withdrawal _ _ _ o) v = rw o.result v
