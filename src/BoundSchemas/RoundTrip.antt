-- ===== src/BoundSchemas/RoundTrip.antt =====
-- helpers/boundschema.go: from a CRD to a BoundSchema and back.
use kbind.Base.{String, ◌≡◌, ◌⊎◌, false, Option, none, some, [], ok, ◌=ˢ◌}
use kbind.BoundSchemas.{WebhookClientConfig, WebhookConversion, Conversion, CrdVersion, Crd, Json}
use Prim.Native.String.{◌++◌ as ◌+ˢ◌}

-- encoding/json on schemas: each is written as a text that is not empty, does not read as a
-- CustomResourceValidation with a schema, and reads back as the schema.
abbrev pub ReadsBack : {J R : Type 0} → Json J R → Type 0
ReadsBack {J} json =
    (j : J)
    → (raw : String) × (json.marshal j ≡ ok raw)
      × ((raw =ˢ "") ≡ false)
      × (json.read_validation raw ≡ none)
      × (json.read_schema raw ≡ some j)

module _ {X : Type 0} where
  -- A webhook's client is given by a URL and not by a service.
  abbrev NoService : Option (WebhookClientConfig X) → Type 0
  NoService none = Unit
  NoService (some c) = c.service ≡ none

  -- There is a webhook exactly for the strategy "Webhook".
  abbrev pub IsPlain : Option (Conversion X) → Type 0
  IsPlain none = Unit
  IsPlain (some c) =
      ((c.strategy ≡ "Webhook")
        × ((w : WebhookConversion X) × (c.webhook ≡ some w) × NoService w.client_config))
      ⊎ (((c.strategy =ˢ "Webhook") ≡ false) × (c.webhook ≡ none))

-- The CRD has no labels, annotations, further metadata or status, and prunes unknown fields.
pub record IsBare {J R X : Type 0} (crd : Crd J R X) : Type 0 where
  pub no_labels : crd.labels ≡ []
  pub no_annotations : crd.annotations ≡ []
  pub no_rest : crd.rest ≡ none
  pub prunes : crd.spec.preserve_unknown_fields ≡ false

module _ {J R X : Type 0} (json : Json J R) where
  -- The version has subresources and no selectable fields.
  abbrev pub IsPlainVersion : CrdVersion J R X → Type 0
  IsPlainVersion v = ((r : R) × (v.subresources ≡ some r)) × (v.selectable_fields ≡ [])
