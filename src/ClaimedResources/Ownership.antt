-- ===== src/ClaimedResources/Ownership.antt =====
-- determineOwner of claimedresources_reconciler.go: who owns a claimed object.
use text.Mathlib.TextEquality.{eq_iff}
use kbind.Base.{
  String, ◌≡◌, ◌≢◌, refl, ◌∙◌, Bool, true, false, Option, none, some, arith, Error, Result, ok, err,
}
use kbind.Objects.{Object}
use kbind.ClaimedResources.{
  Owner, provider, consumer, owner_name, owner_label, determine_owner, by_label, by_consumer,
}

by_label-named :
    (l : String) (b : Bool) (self o : Owner) (rest : Result Owner)
    → l ≡ owner_name o
    → by_label l b self rest ≡ ok o
unfolding by_label
by_label-named l b self provider rest e = rw e refl
by_label-named l b self consumer rest e = rw e refl

by_label-unnamed :
    (l : String) (self : Owner) (rest : Result Owner)
    → l ≢ "provider"
    → l ≢ "consumer"
    → by_label l false self rest ≡ rest
unfolding by_label
by_label-unnamed l self rest p c =
    ground (arith, eq_iff l "provider", eq_iff l "consumer", eq_iff l "")

by_label-alone :
    (l : String) (self : Owner) (rest : Result Owner) → l ≡ "" → by_label l true self rest ≡ ok self
unfolding by_label
by_label-alone l self rest e = rw e refl

module _ {J : Type 0} where
  -- The object has no label that names an owner.
  pub record IsUnlabelled (obj : Object J) : Type 0 where
    pub not_provider : owner_label obj ≢ "provider"
    pub not_consumer : owner_label obj ≢ "consumer"

  -- A rule for the owner, given the objects of the provider and of the consumer.
  pub record IsOwnerRule (rule : Option (Object J) → Option (Object J) → Result Owner)
      : Type 0 where
    -- A label of the provider's object decides, whatever the consumer's object says.
    pub provider_label :
        (p : Object J) (c : Option (Object J)) (o : Owner)
        → owner_label p ≡ owner_name o
        → rule (some p) c ≡ ok o
    -- A label of the consumer's object decides where the provider's has none or is not there.
    pub consumer_label :
        (p c : Object J) (o : Owner)
        → IsUnlabelled p
        → owner_label c ≡ owner_name o
        → rule (some p) (some c) ≡ ok o
    pub consumer_label_alone :
        (c : Object J) (o : Owner) → owner_label c ≡ owner_name o → rule none (some c) ≡ ok o
    -- An object without a label, alone, is owned by its side.
    pub provider_alone : (p : Object J) → owner_label p ≡ "" → rule (some p) none ≡ ok provider
    pub consumer_alone : (c : Object J) → owner_label c ≡ "" → rule none (some c) ≡ ok consumer
    -- Between two objects without a label there is no owner.
    pub unowned :
        (p c : Object J)
        → IsUnlabelled p
        → IsUnlabelled c
        → (e : Error) × (rule (some p) (some c) ≡ err e)

  -- A label of the provider's object names the owner; where that object is not there or has none, a
  -- label of the consumer's object does. An object with the empty label or none is owned by its side
  -- when the other object is not there. Between two objects without a label that names an owner, the
  -- owner is undetermined.
  pub determine_owner-IsOwnerRule : IsOwnerRule determine_owner
  unfolding determine_owner by_consumer
  determine_owner-IsOwnerRule = record {
    provider_label = λ p c o e. by_label-named (owner_label p) _ provider o _ e;
    consumer_label = λ p c o u e.
        by_label-unnamed (owner_label p) provider _ u.not_provider u.not_consumer
        ∙ by_label-named (owner_label c) _ consumer o _ e;
    consumer_label_alone = λ c o e. by_label-named (owner_label c) _ consumer o _ e;
    provider_alone = λ p e. by_label-alone (owner_label p) provider _ e;
    consumer_alone = λ c e. by_label-alone (owner_label c) consumer _ e;
    unowned = λ p c u w. (
      _,
      by_label-unnamed (owner_label p) provider _ u.not_provider u.not_consumer
          ∙ by_label-unnamed (owner_label c) consumer _ w.not_provider w.not_consumer,
    );
  }
