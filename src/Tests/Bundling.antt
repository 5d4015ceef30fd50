-- ===== src/Tests/Bundling.antt =====
-- A run of the controller of a bundle that owns a binding without an export.
use kbind.Base.{
  ℕ, String, ◌≡◌, List, [], ◌∷◌, ok, err, not_found, any, contains, Bool, not, ◌&&◌, true,
}
use kbind.Bundles
use kbind.Bundles.{Bundle, Binding, Server, Env, sync_listed}
use kbind.Bundles.Synced.{creates, deletes, has_owned, sync_listed-refines}
use kbind.Tests.{marks}

abbrev bundle : Bundle (List String)
bundle = record {
  name = "all";
  uid = "all-uid";
  secret_ref = record { namespace = "kube-bind"; name = "kubeconfig"; key = "kubeconfig" };
  conditions = [];
}

abbrev orphan : Binding
orphan = record {
  name = "gone";
  owner_references =
      record {
        api_version = "kube-bind.io/v1alpha2";
        kind = "APIServiceBindingBundle";
        name = "all";
        uid = "all-uid";
        controller = true;
      }
      ∷ [];
  secret_ref = bundle.secret_ref;
}

abbrev server : Server ℕ
server = record {
  consumer_secret = λ h ns n. err not_found;
  made_client = λ h c. ok tt;
  exports = λ h n. ok ("new" ∷ []);
  bindings = λ h. ok (orphan ∷ []);
  created = λ h b. ok tt;
  deleted = λ h n. ok tt;
}

abbrev env : Env ℕ
env = record {
  load = λ t. err not_found;
  rest_config = λ t. ok 1;
  quote = λ t. t;
  error_text = λ e. "";
  count_text = λ es. "";
}

sync_listed-refines_example :
    let calls : List (Bundles.Call ℕ) =
      (sync_listed env marks server bundle ("new" ∷ []) (orphan ∷ []) [] []).1 in
    let owns : Bool = has_owned "all" "all-uid" (orphan ∷ []) "gone" in
    (any (creates "gone") calls ≡ (contains ("new" ∷ []) "gone" && not owns))
    × (any (deletes "gone") calls ≡ (owns && not (contains ("new" ∷ []) "gone")))
sync_listed-refines_example =
    sync_listed-refines env marks server bundle ("new" ∷ []) (orphan ∷ []) [] "gone"
