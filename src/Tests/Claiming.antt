-- ===== src/Tests/Claiming.antt =====
-- Runs of the check of a claim: the secret `pw` is claimed by the database object that names it.
use kbind.Base.{ℕ, String, ◌≡◌, ◌↔◌, refl, true, false, none, [], ◌∷◌, ok, err, not_found}
use kbind.Objects.{Object}
use kbind.Isolation.{ServiceNamespace}
use kbind.Claims.{
  Env, Selector, SelectorReference, ExportSpec, isolation_namespaced, Server, is_claimed,
  is_claimed_with_reference,
}
use kbind.Claims.Claimed.{Claims, is_claimed-Claims}
use kbind.Claims.Lists.{
  ListsOnlyAllowed, is_claimed_with_reference-ListsOnlyAllowed, is_claimed_with_reference-remapped,
  IsConsumerNamespace,
}
use kbind.Tests.{consumer_object}

abbrev password : Object ℕ
password = record consumer_object { namespace = "team"; name = "pw" }

abbrev database : Object ℕ
database = record consumer_object { namespace = "team" }

abbrev to_password : SelectorReference
to_password = record {
  group = "db.io";
  resource = "dbs";
  versions = [];
  path_name = "spec.secret";
  path_namespace = "";
}

abbrev selector : Selector ℕ
selector = record { label_selector = none; named_resources = []; references = to_password ∷ [] }

abbrev export_spec : ExportSpec
export_spec = record {
  isolation = isolation_namespaced;
  resources = record { group = "db.io"; resource = "dbs"; versions = "v1" ∷ [] } ∷ [];
}

-- Every path of every object holds " pw ".
abbrev env : Env ℕ ℕ
env = record {
  as_selector = λ l. err not_found;
  marshal_json = λ o. ok "{}";
  gjson_get = λ json path. record { exists = true; is_array = false; text = " pw "; elements = [] };
}

abbrev assigned : ServiceNamespace
assigned = record { namespace = "cn"; name = "team"; status_namespace = "cn-team" }

abbrev server : Server ℕ
server = record {
  objects = λ h g r v. ok (database ∷ []);
  service_namespaces = λ h. ok (assigned ∷ []);
}

is_claimed-Claims_example :
    (is_claimed env selector password (database ∷ []) isolation_namespaced ≡ true)
    ↔ Claims env selector password (database ∷ []) isolation_namespaced
is_claimed-Claims_example =
    is_claimed-Claims env selector password (database ∷ []) isolation_namespaced

is_claimed_with_reference-ListsOnlyAllowed_example :
    ListsOnlyAllowed export_spec
      (is_claimed_with_reference env server selector export_spec true password []).1
is_claimed_with_reference-ListsOnlyAllowed_example =
    is_claimed_with_reference-ListsOnlyAllowed server export_spec env selector true password

is_claimed_with_reference-remapped_example :
    (ns : String) × IsConsumerNamespace "cn-team" ns (assigned ∷ [])
    × ((is_claimed_with_reference env server selector export_spec false
          (record password { namespace = "cn-team" })
          []).0
        ≡ (is_claimed_with_reference env server selector export_spec true
            (record password { namespace = ns })
            []).0)
is_claimed_with_reference-remapped_example =
    is_claimed_with_reference-remapped server export_spec env selector
      (record password { namespace = "cn-team" }) [] (assigned ∷ []) refl
