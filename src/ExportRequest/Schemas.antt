-- ===== src/ExportRequest/Schemas.antt =====
-- createOrUpdateBoundSchema of serviceexportrequest_reconcile.go: an existing schema and the exported.
use kbind.Base.{String, ◌≡◌, Option, none, some}
use kbind.Base.Dict.{lookup, insert}
use kbind.ExportRequest.{BoundSchema, Export}
use kbind.ExportRequest.Handler.{Env, source_spec_hash, text_of}

-- There is no export yet, or it controls the schema.
abbrev pub IsSettledOwner : {X : Type 0} → Option (Export X) → BoundSchema X → Type 0
IsSettledOwner none b = Unit
IsSettledOwner (some export) b = b.controller_uid ≡ some export.uid

module _ {X K : Type 0} (env : Env X K) (export : Option (Export X)) (desired : BoundSchema X)
    (hash : String) where
  hash_of : BoundSchema X → String
  hash_of b = text_of (lookup source_spec_hash b.annotations)

  abbrev followed : BoundSchema X → BoundSchema X
  followed existing = record existing {
    annotations = insert source_spec_hash hash existing.annotations;
    spec = desired.spec;
  }
