-- ===== src/Tests/Installing.antt =====
-- A run of the konnector's controller for a binding, whose CRD is installed and owned by it.
use kbind.Base.{false, String, true, none, List, [], ◌∷◌, ok, err, not_found}
use kbind.BoundSchemas.{BoundSchema}
use kbind.ServiceBindings.{Binding, InstalledCrd, Server}
use kbind.ServiceBindings.Reconcile.{reconcile}
use kbind.ServiceBindings.Install.{WritesOwned}
use kbind.ServiceBindings.Owned.{reconcile-WritesOwned}
use kbind.Tests.{marks}
use kbind.Tests.Converting.{json, crd}
use kbind.Base.{false, ℕ, Bool}

abbrev binding : Binding ℕ (List String)
binding = record {
  name = "e";
  uid = "e-uid";
  bound_schemas = [];
  permission_claims = [];
  provider_pretty_name = "";
  conditions = [];
}

abbrev stored : BoundSchema ℕ ℕ
stored = record {
  name = "foos.g";
  informer_scope = "Namespaced";
  spec = record {
    group = "g";
    names = record { plural = "foos"; others = 1 };
    scope = "Namespaced";
    conversion = none;
    preserve_unknown_fields = false;
    versions = [];
  };
}

abbrev installed : InstalledCrd Bool ℕ ℕ
installed = record {
  meta = record {
    name = "foos.g";
    owner_references =
        record {
          api_version = "kube-bind.io/v1alpha2";
          kind = "APIServiceBinding";
          name = "e";
          uid = "e-uid";
          controller = true;
        }
        ∷ [];
    resource_version = "7";
  };
  spec = crd.spec;
}

abbrev server : Server Bool ℕ ℕ
server = record {
  service_export = λ h n. ok (record {
    resources = record { group = "g"; resource = "foos"; versions = "v1" ∷ [] } ∷ [];
    permission_claims = [];
  });
  service_export_request = λ h n. err not_found;
  bound_schema = λ h n. ok stored;
  crd = λ h n. ok installed;
  pretty_name = λ h. ok "provider";
  updated = λ h c. ok tt;
  created = λ h c. ok tt;
}

reconcile-WritesOwned_example :
    WritesOwned server "e" "e-uid" (reconcile json marks server (λ f a. f) (λ b. true) binding []).1
reconcile-WritesOwned_example =
    reconcile-WritesOwned json marks server (λ f a. f) (λ b. true) binding [] tt
