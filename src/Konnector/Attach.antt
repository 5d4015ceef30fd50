-- ===== src/Konnector/Attach.antt =====
-- konnector_reconcile.go: the searches and the set operations.
use text.Mathlib.TextEquality.{eq_iff}
use kbind.Base.{
  ℕ, String, ◌≡◌, ◌≢◌, refl, inl, inr, true, none, some, List, [], ◌∷◌, arith, Bool-cases, contains,
  ◌=ˢ◌,
}
use kbind.Base.Dict.{Dict, lookup, DistinctKeys}
use kbind.Konnector.{ControllerContext, find_kubeconfig, set_delete, set_insert}

pub contains-set_delete :
    (s t : String) (xs : List String) → s ≢ t → contains (set_delete s xs) t ≡ contains xs t
contains-set_delete s t [] n = refl
contains-set_delete s t (x ∷ xs) n =
    ground (arith, contains-set_delete s t xs n, eq_iff x s, eq_iff x t)

pub contains-set_insert :
    (s t : String) (xs : List String) → contains xs t ≡ true → contains (set_insert s xs) t ≡ true
contains-set_insert s t xs c = ground arith

pub contains-set_insert_self : (s : String) (xs : List String) → contains (set_insert s xs) s ≡ true
contains-set_insert_self s xs = ground (arith, eq_iff s s)

module _ (heap : ℕ → ControllerContext) (kubeconfig : String) where
  -- What the search finds is a context of some name, with the kubeconfig.
  pub find_kubeconfig-some :
      (m : Dict ℕ) (i : ℕ)
      → DistinctKeys m
      → find_kubeconfig heap kubeconfig m ≡ some i
      → (n : String) × (lookup n m ≡ some i) × ((heap i).kubeconfig ≡ kubeconfig)
  unfolding find_kubeconfig lookup
  find_kubeconfig-some [] i d e = cc
  find_kubeconfig-some ((n, j) ∷ m) i d e = elim (Bool-cases ((heap j).kubeconfig =ˢ kubeconfig)) [
    | inl same ↦
        (n, ground (arith, eq_iff n n), ground (arith, eq_iff (heap j).kubeconfig kubeconfig))
    | inr other ↦
        let (k, found, kc) = find_kubeconfig-some m i d.1 (ground arith) in
        (k, ground (arith, found, eq_iff n k, d.0), kc)
  ]

  -- If it finds nothing, no name has a context with the kubeconfig.
  pub find_kubeconfig-none :
      (m : Dict ℕ) (n : String) (i : ℕ)
      → find_kubeconfig heap kubeconfig m ≡ none
      → lookup n m ≡ some i
      → (heap i).kubeconfig ≢ kubeconfig
  unfolding find_kubeconfig lookup
  find_kubeconfig-none [] n i e l = cc
  find_kubeconfig-none ((k, j) ∷ m) n i e l = ground (
    arith,
    eq_iff (heap j).kubeconfig kubeconfig,
    find_kubeconfig-none m n i,
    eq_iff (heap i).kubeconfig kubeconfig,
  )
