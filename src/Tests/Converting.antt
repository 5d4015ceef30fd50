-- ===== src/Tests/Converting.antt =====
-- A run of the conversion of a CRD, with Booleans for the schemas.
use kbind.Base.{ℕ, Bool, true, false, none, some, [], ◌∷◌, if◌then◌else◌, ok, ◌=ˢ◌}
use kbind.BoundSchemas.{Crd, Json}

abbrev pub json : Json Bool ℕ
json = record {
  marshal = λ b. if b then ok "true" else ok "false";
  read_validation = λ raw. none;
  read_schema = λ raw. some (raw =ˢ "true");
  no_subresources = 0;
  quote = λ t. t;
  error_text = λ e. "";
}

-- One version with a schema, converted by a webhook with a URL.
abbrev pub crd : Crd Bool ℕ ℕ
crd = record {
  name = "foos.g";
  labels = [];
  annotations = [];
  rest = none;
  spec = record {
    group = "g";
    names = record { plural = "foos"; others = 1 };
    scope = "Namespaced";
    preserve_unknown_fields = false;
    conversion = some (record {
      strategy = "Webhook";
      webhook = some (record {
        client_config = some (record { url = some "https://x"; ca_bundle = "ca"; service = none });
        conversion_review_versions = "v1" ∷ [];
      });
    });
    versions =
        record {
          name = "v1";
          served = true;
          storage = true;
          deprecated = false;
          deprecation_warning = none;
          additional_printer_columns = 2;
          selectable_fields = [];
          schema = some true;
          subresources = some 3;
        }
        ∷ [];
  };
}
