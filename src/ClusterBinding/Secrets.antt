-- ===== src/ClusterBinding/Secrets.antt =====
-- clusterbinding_reconcile.go of the konnector: the copy of the provider's secret.
use kbind.Base.{
  String, ◌≡◌, ◌⊎◌, inl, inr, refl, true, none, List, ◌∷◌, is_some, Result, ok, err, not_found,
  already_exists, invalid, other, Outcome, done,
}
use kbind.Base.Dict.{lookup}
use kbind.Base.Exec.{◌>>=◌}
use kbind.ClusterBinding.{ClusterBinding}
use kbind.ClusterBinding.Konnector.{
  Call, Secret, Reconciler, get_provider_secret, get_consumer_secret, create_consumer_secret,
  update_consumer_secret, new_secret, write_secret, found_secret, copy_secret, marked_valid,
  ensure_provided, ensure_consumer_secret,
}
use kbind.Conditions.{Conditions}

-- The newest call was accepted, and writes the data and the type of the provider's secret: to the
-- consumer's secret where that was found after the calls `past`, and to a new one where it was not,
-- named by the parts of the configured key.
abbrev pub IsCopied : Reconciler → Secret → (past asked calls : List Call) → Type 0
IsCopied r provided past asked calls =
    ((found : Secret) × (r.server.consumer_secret past ≡ ok found)
      × let s : Secret = record found { data_of = provided.data_of; type_of = provided.type_of } in
        (calls ≡ update_consumer_secret s ∷ asked) × (r.server.updated asked s ≡ done))
    ⊎ ((r.server.consumer_secret past ≡ err not_found)
        × ((s : Secret) × (r.split_key r.consumer_secret_ref_key ≡ ok (s.name, s.namespace))
            × (s.data_of ≡ provided.data_of)
            × (s.type_of ≡ provided.type_of)
            × (calls ≡ create_consumer_secret s ∷ asked)
            × (r.server.created asked s ≡ done)))

module _ {K : Type 0} (c : Conditions K) (r : Reconciler) where
  abbrev Copied : Secret → (past asked : List Call) → Result (Unit {0}) × List Call → Type 0
  Copied provided past asked x = x.0 ≡ done → IsCopied r provided past asked x.1

  write_new-Copied :
      (provided : Secret) (names : Result (String × String)) (past asked : List Call)
      → r.split_key r.consumer_secret_ref_key ≡ names
      → r.server.consumer_secret past ≡ err not_found
      → Copied provided past asked (write_secret c r provided none asked)
  unfolding write_secret new_secret ◌>>=◌
  write_new-Copied provided (err x) past asked s m = rw s (λ e. cc e)
  write_new-Copied provided (ok (ns, name)) past asked s m = rw s (λ e. inr (
    m,
    (
      record {
        name = ns;
        namespace = name;
        data_of = provided.data_of;
        type_of = provided.type_of;
      },
      refl,
      refl,
      refl,
      refl,
      e,
    ),
  ))

  written-Copied :
      (provided : Secret) (got : Result Secret) (past asked : List Call)
      → r.server.consumer_secret past ≡ got
      → Copied provided past asked
          (((λ h. (found_secret c r got, h)) >>= write_secret c r provided) asked)
  unfolding found_secret ◌>>=◌
  written-Copied provided (ok found) past asked g =
      unfold write_secret in λ e. inl (found, g, (refl, e))
  written-Copied provided (err not_found) past asked g =
      write_new-Copied provided (r.split_key r.consumer_secret_ref_key) past asked refl g
  written-Copied provided (err already_exists) past asked g = λ e. cc e
  written-Copied provided (err invalid) past asked g = λ e. cc e
  written-Copied provided (err (other _)) past asked g = λ e. cc e

  copy_secret-Copied :
      (provided : Secret) (h : List Call)
      → Copied provided h (get_consumer_secret ∷ h) (copy_secret c r provided h)
  unfolding copy_secret ◌>>=◌
  copy_secret-Copied provided h =
      written-Copied provided (r.server.consumer_secret h) h (get_consumer_secret ∷ h) refl

  marked_valid-done :
      (o : Outcome) (b : ClusterBinding K) → (marked_valid c r o b).0 ≡ done → o ≡ done
  unfolding marked_valid
  marked_valid-done (ok tt) b e = refl
  marked_valid-done (err x) b e = e

  -- Where the provider's secret is found and has the key of the kubeconfig, a success means that the
  -- last call wrote the provider's data and type and was accepted: it updated the consumer's secret
  -- if that was found, keeping the rest of it, and otherwise created one whose name and namespace are
  -- the first and the second part of the configured key.
  pub ensure_consumer_secret-IsCopied :
      (b : ClusterBinding K) (h : List Call) (provided : Secret)
      → r.server.provider_secret h ≡ ok provided
      → is_some (lookup b.secret_key provided.data_of) ≡ true
      → (ensure_consumer_secret c r b h).0.0 ≡ done
      → IsCopied r provided
          (get_provider_secret ∷ h)
          (get_consumer_secret ∷ get_provider_secret ∷ h)
          (ensure_consumer_secret c r b h).1
  unfolding ensure_consumer_secret ensure_provided
  ensure_consumer_secret-IsCopied b h provided p k =
      rw (p, k)
        (λ e.
          copy_secret-Copied provided (get_provider_secret ∷ h)
            (marked_valid-done (copy_secret c r provided (get_provider_secret ∷ h)).0 b e))

  -- A consumer secret that is not there is created under swapped names: its name is the namespace of
  -- the configured key, and its namespace is the name.
  pub ensure_consumer_secret-swapped :
      (b : ClusterBinding K) (h : List Call) (provided : Secret) (ns name : String)
      → r.server.provider_secret h ≡ ok provided
      → is_some (lookup b.secret_key provided.data_of) ≡ true
      → r.server.consumer_secret (get_provider_secret ∷ h) ≡ err not_found
      → r.split_key r.consumer_secret_ref_key ≡ ok (ns, name)
      → (ensure_consumer_secret c r b h).1
        ≡ create_consumer_secret (record {
          name = ns;
          namespace = name;
          data_of = provided.data_of;
          type_of = provided.type_of;
        })
          ∷ get_consumer_secret
          ∷ get_provider_secret
          ∷ h
  unfolding ensure_consumer_secret ensure_provided copy_secret found_secret write_secret new_secret
      ◌>>=◌
  ensure_consumer_secret-swapped b h provided ns name p k n s = rw (p, k, n, s) refl
