-- ===== src/BoundSchemas.antt =====
-- sdk/apis/kubebind/v1alpha2/helpers/boundschema.go: a CustomResourceDefinition as a BoundSchema, as
-- the backend stores it, and back, as the konnector installs it.
pub mod RoundTrip
use kbind.Base.{
  String, Bool, true, false, Option, none, some, List, [], ◌∷◌, map, if◌then◌else◌, is_some, Error,
  Result, ok, err, other, ◌=ˢ◌,
}
use kbind.Base.Dict.{Dict}
use Prim.Native.String.{◌++◌ as ◌+ˢ◌}

-- `X` is the type of the other names.
pub record Names (X : Type 0) : Type 0 where
  pub plural : String
  pub others : X

-- `service` is a reference that only the CRD has.
pub record WebhookClientConfig (X : Type 0) : Type 0 where
  pub url : Option String
  pub ca_bundle : String
  pub service : Option X

pub record WebhookConversion (X : Type 0) : Type 0 where
  pub client_config : Option (WebhookClientConfig X)
  pub conversion_review_versions : List String

pub record Conversion (X : Type 0) : Type 0 where
  pub strategy : String
  pub webhook : Option (WebhookConversion X)

-- A version: `S` is the type of its schema and `R` that of its subresources; `X` is the type of the
-- printer columns and of a selectable field. Only a CRD has selectable fields: those of a BoundSchema
-- are none.
pub record Version (S R X : Type 0) : Type 0 where
  pub name : String
  pub served : Bool
  pub storage : Bool
  pub deprecated : Bool
  pub deprecation_warning : Option String
  pub additional_printer_columns : X
  pub selectable_fields : List X
  pub schema : S
  pub subresources : R

-- The spec of a CRD, and without the informer scope that of a BoundSchema, which has no
-- PreserveUnknownFields: it is false there.
pub record CrdSpec (V X : Type 0) : Type 0 where
  pub group : String
  pub names : Names X
  pub scope : String
  pub conversion : Option (Conversion X)
  pub preserve_unknown_fields : Bool
  pub versions : List V

-- A CRD's schema and subresources can be missing; `J` is the type of JSONSchemaProps.
abbrev pub CrdVersion : Type 0 → Type 0 → Type 0 → Type 0
CrdVersion J R X = Version (Option J) (Option R) X

-- A BoundSchema's schema is a text, empty where there is none.
abbrev pub BoundVersion : Type 0 → Type 0 → Type 0
BoundVersion R X = Version String R X

-- `rest` is the rest of the metadata and the status, if any of it is set.
pub record Crd (J R X : Type 0) : Type 0 where
  pub name : String
  pub labels : Dict String
  pub annotations : Dict String
  pub rest : Option X
  pub spec : CrdSpec (CrdVersion J R X) X

pub record BoundSchema (R X : Type 0) : Type 0 where
  pub name : String
  pub informer_scope : String
  pub spec : CrdSpec (BoundVersion R X) X

-- encoding/json: `read_validation` is the schema in a CustomResourceValidation if the text is one that
-- has a schema. `no_subresources` is the zero value. `quote` and `error_text` print.
pub record Json (J R : Type 0) : Type 0 where
  pub marshal : J → Result String
  pub read_validation : String → Option J
  pub read_schema : String → Option J
  pub no_subresources : R
  pub quote : String → String
  pub error_text : Error → String

module _ {X : Type 0} where
  -- The conversion without the service. A strategy "Webhook" without a webhook dereferences nil.
  unfoldable pub bound_client_config : WebhookClientConfig X → WebhookClientConfig X
  bound_client_config c = record { url = c.url; ca_bundle = c.ca_bundle; service = none }

  unfoldable pub bound_webhook : WebhookConversion X → WebhookConversion X
  unfolding bound_client_config
  bound_webhook w = record {
    client_config = elim w.client_config [ none ↦ none | some c ↦ some (bound_client_config c) ];
    conversion_review_versions = w.conversion_review_versions;
  }

  unfoldable pub webhook_of : Option (WebhookConversion X) → Result (Option (WebhookConversion X))
  unfolding bound_webhook
  webhook_of none = err (other "nil pointer dereference")
  webhook_of (some w) = ok (some (bound_webhook w))

  abbrev with_webhook :
      String → Result (Option (WebhookConversion X)) → Result (Option (Conversion X))
  with_webhook strategy (ok w) = ok (some (record { strategy = strategy; webhook = w }))
  with_webhook strategy (err e) = err e

  unfoldable pub bound_conversion : Option (Conversion X) → Result (Option (Conversion X))
  unfolding webhook_of
  bound_conversion none = ok none
  bound_conversion (some c) =
      if c.strategy =ˢ "Webhook"
      then with_webhook c.strategy (webhook_of c.webhook)
      else ok (some (record { strategy = c.strategy; webhook = none }))

  unfoldable pub crd_conversion : Conversion X → Conversion X
  unfolding bound_webhook
  crd_conversion c = record {
    strategy = c.strategy;
    webhook =
        if c.strategy =ˢ "Webhook"
        then elim c.webhook [ none ↦ none | some w ↦ some (bound_webhook w) ]
        else none;
  }

module _ {J R : Type 0} (json : Json J R) where
  unfoldable pub raw_schema : String → Option J → Result String
  raw_schema version none = ok ""
  raw_schema version (some j) = elim (json.marshal j) [
    | ok raw ↦ ok raw
    | err e ↦ err (
        other (
          "error converting schema for version "
          +ˢ json.quote version
          +ˢ ": "
          +ˢ json.error_text e))
  ]

  abbrev pub or_zero : Option R → R
  or_zero none = json.no_subresources
  or_zero (some r) = r

  -- First as a CustomResourceValidation, then as JSONSchemaProps.
  unfoldable pub crd_schema : String → Option J
  crd_schema raw =
      if raw =ˢ ""
      then none
      else elim (json.read_validation raw) [ some j ↦ some j | none ↦ json.read_schema raw ]

module _ {J R X : Type 0} (json : Json J R) where
  unfoldable pub bound_version : CrdVersion J R X → String → BoundVersion R X
  bound_version v raw = record {
    name = v.name;
    served = v.served;
    storage = v.storage;
    deprecated = v.deprecated;
    deprecation_warning = v.deprecation_warning;
    additional_printer_columns = v.additional_printer_columns;
    selectable_fields = [];
    schema = raw;
    subresources = or_zero json v.subresources;
  }

  -- `append`, if the version and the later ones can be converted
  abbrev then_version :
      CrdVersion J R X
      → Result String
      → Result (List (BoundVersion R X))
      → Result (List (BoundVersion R X))
  then_version v (err e) rest = err e
  then_version v (ok raw) (err e) = err e
  then_version v (ok raw) (ok vs) = ok (bound_version v raw ∷ vs)

  unfoldable pub bound_versions : List (CrdVersion J R X) → Result (List (BoundVersion R X))
  unfolding raw_schema bound_version
  bound_versions [] = ok []
  bound_versions (v ∷ vs) = then_version v (raw_schema json v.name v.schema) (bound_versions vs)

  abbrev bound_schema_of :
      Crd J R X
      → String
      → Result (Option (Conversion X))
      → Result (List (BoundVersion R X))
      → Result (BoundSchema R X)
  bound_schema_of crd name (err e) vs = err e
  bound_schema_of crd name (ok c) (err e) = err e
  bound_schema_of crd name (ok c) (ok vs) = ok (record {
    name = name;
    informer_scope = crd.spec.scope;
    spec = record {
      group = crd.spec.group;
      names = crd.spec.names;
      scope = crd.spec.scope;
      conversion = c;
      preserve_unknown_fields = false;
      versions = vs;
    };
  })

  -- What is wrong with the versions.
  unfoldable pub check_versions : Crd J R X → Option Error
  check_versions crd = elim crd.spec.versions [
    | [] ↦ some (other ("no versions specified for CRD " +ˢ json.quote crd.name))
    | v ∷ vs ↦ elim vs [
      | [] ↦ none
      | w ∷ ws ↦
          if is_some crd.spec.conversion
          then none
          else some (
              other (
                "multiple versions specified for CRD "
                +ˢ json.quote crd.name
                +ˢ " but no conversion strategy"))
    ]
  ]

  unfoldable pub crd_to_bound_schema : Crd J R X → String → Result (BoundSchema R X)
  unfolding check_versions bound_conversion bound_versions
  crd_to_bound_schema crd prefix = elim (check_versions crd) [
    | some e ↦ err e
    | none ↦
        bound_schema_of crd (if prefix =ˢ "" then crd.name else prefix +ˢ "." +ˢ crd.name)
          (bound_conversion crd.spec.conversion) (bound_versions crd.spec.versions)
  ]

  unfoldable pub crd_version : BoundVersion R X → CrdVersion J R X
  unfolding crd_schema
  crd_version v = record {
    name = v.name;
    served = v.served;
    storage = v.storage;
    deprecated = v.deprecated;
    deprecation_warning = v.deprecation_warning;
    additional_printer_columns = v.additional_printer_columns;
    selectable_fields = [];
    schema = crd_schema json v.schema;
    subresources = some v.subresources;
  }

  unfoldable pub bound_schema_to_crd : BoundSchema R X → Crd J R X
  unfolding crd_conversion crd_version
  bound_schema_to_crd schema = record {
    name = schema.spec.names.plural +ˢ "." +ˢ schema.spec.group;
    labels = [];
    annotations = [];
    rest = none;
    spec = record {
      group = schema.spec.group;
      names = schema.spec.names;
      scope = schema.spec.scope;
      conversion = elim schema.spec.conversion [ none ↦ none | some c ↦ some (crd_conversion c) ];
      preserve_unknown_fields = false;
      versions = map crd_version schema.spec.versions;
    };
  }
