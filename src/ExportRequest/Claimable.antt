-- ===== src/ExportRequest/Claimable.antt =====
-- validate of serviceexportrequest_reconcile.go: which permission claims are valid together.
use text.Mathlib.TextEquality.{eq_iff}
use kbind.Base.{
  String, ◌≡◌, refl, ◌∙◌, sym, ap, ◌↔◌, ◌⊎◌, inl, inr, true, false, some, List, [], ◌∷◌, arith, All,
  contains, ◌=ˢ◌, Bool-cases,
}
use kbind.Base.Text.{strip, strip-append}
use kbind.ExportRequest.{PermissionClaim, claim_key, is_claimable_api}
use kbind.ExportRequest.Checks.{Unrepeated}
use Prim.Native.String.{◌++◌ as ◌+ˢ◌}

append-cancel : (p s t : String) → p +ˢ s ≡ p +ˢ t → s ≡ t
append-cancel p s t e =
    let both : some s ≡ some t =
      sym (strip-append p s) ∙ ap (λ x. strip x p) e ∙ strip-append p t in
    cc

module _ {X : Type 0} where
  -- The claim is for config maps, secrets or service accounts.
  abbrev pub IsClaimable : PermissionClaim X → Type 0
  IsClaimable claim =
      (claim.group ≡ "")
      × ((claim.resource ≡ "configmaps")
          ⊎ ((claim.resource ≡ "secrets") ⊎ (claim.resource ≡ "serviceaccounts")))

  -- No two of the claims are for one group and resource.
  abbrev pub AreDistinct : List (PermissionClaim X) → Type 0
  AreDistinct [] = Unit
  AreDistinct (claim ∷ rest) =
      All (λ later. ¬ ((claim.group ≡ later.group) × (claim.resource ≡ later.resource))) rest
      × AreDistinct rest

  is_claimable_api-IsClaimable :
      (claim : PermissionClaim X) → (is_claimable_api claim ≡ true) ↔ IsClaimable claim
  is_claimable_api-IsClaimable claim =
      let g = eq_iff claim.group "" in
      let c = eq_iff claim.resource "configmaps" in
      let s = eq_iff claim.resource "secrets" in
      let a = eq_iff claim.resource "serviceaccounts" in
      (λ e. ground (arith, g, c, s, a), λ e. ground (arith, g, c, s, a))

  pub All-IsClaimable :
      (claims : List (PermissionClaim X))
      → All (λ claim. is_claimable_api claim ≡ true) claims ↔ All IsClaimable claims
  All-IsClaimable [] = (λ a. tt, λ a. tt)
  All-IsClaimable (claim ∷ rest) =
      let here = is_claimable_api-IsClaimable claim in
      let later = All-IsClaimable rest in
      (λ a. (here.0 a.0, later.0 a.1), λ a. (here.1 a.0, later.1 a.1))

  claim_key-resource :
      (a b : PermissionClaim X)
      → a.group ≡ b.group
      → claim_key a ≡ claim_key b
      → a.resource ≡ b.resource
  claim_key-resource a b g e =
      let same : a.group +ˢ "/" +ˢ a.resource ≡ a.group +ˢ "/" +ˢ b.resource =
        e ∙ ap (λ t. t +ˢ "/" +ˢ b.resource) (sym g) in
      append-cancel "/" a.resource b.resource (append-cancel a.group _ _ same)

  -- No claim of the list has a key that was seen.
  abbrev pub AreNew : List String → List (PermissionClaim X) → Type 0
  AreNew seen = All (λ claim. contains seen (claim_key claim) ≡ false)

  AreNew-tail :
      (claim : PermissionClaim X) (seen : List String) (rest : List (PermissionClaim X))
      → AreNew (claim_key claim ∷ seen) rest
      → AreNew seen rest
        × All (λ later. ¬ ((claim.group ≡ later.group) × (claim.resource ≡ later.resource))) rest
  AreNew-tail claim seen [] a = (tt, tt)
  AreNew-tail claim seen (d ∷ rest) a =
      let later = AreNew-tail claim seen rest a.1 in
      (
        (ground (arith, a.0), later.0),
        (
          λ same.
              let keys : claim_key claim ≡ claim_key d = (λ i. same.0 i +ˢ "/" +ˢ same.1 i) in
              ground (arith, a.0, keys, eq_iff (claim_key claim) (claim_key d)),
          later.1,
        ),
      )

  pub Unrepeated-AreDistinct :
      (seen : List String) (claims : List (PermissionClaim X))
      → Unrepeated seen claims
      → AreDistinct claims × AreNew seen claims
  Unrepeated-AreDistinct seen [] u = (tt, tt)
  Unrepeated-AreDistinct seen (claim ∷ rest) (u, us) =
      let (d, n) = Unrepeated-AreDistinct (claim_key claim ∷ seen) rest us in
      let (m, different) = AreNew-tail claim seen rest n in ((different, d), (u, m))

  AreNew-more :
      (claim : PermissionClaim X) (seen : List String) (rest : List (PermissionClaim X))
      → claim.group ≡ ""
      → All IsClaimable rest
      → All (λ later. ¬ ((claim.group ≡ later.group) × (claim.resource ≡ later.resource))) rest
      → AreNew seen rest
      → AreNew (claim_key claim ∷ seen) rest
  AreNew-more claim seen [] g c d n = tt
  AreNew-more claim seen (e ∷ rest) g (c, cs) (d, ds) (n, ns) =
      let group : claim.group ≡ e.group = g ∙ sym c.0 in
      (
        elim (Bool-cases (claim_key claim =ˢ claim_key e)) [
          | inl t ↦
              let keys = (eq_iff (claim_key claim) (claim_key e)).0 t in
              absurd (d (group, claim_key-resource claim e group keys))
          | inr t ↦ ground (arith, t, n)
        ],
        AreNew-more claim seen rest g cs ds ns,
      )

  pub AreDistinct-Unrepeated :
      (seen : List String) (claims : List (PermissionClaim X))
      → All IsClaimable claims
      → AreDistinct claims
      → AreNew seen claims
      → Unrepeated seen claims
  AreDistinct-Unrepeated seen [] c d n = tt
  AreDistinct-Unrepeated seen (claim ∷ rest) (c, cs) (d, ds) (n, ns) = (
    n,
    AreDistinct-Unrepeated (claim_key claim ∷ seen) rest cs ds
        (AreNew-more claim seen rest c.0 cs d ns),
  )

  pub AreNew-nothing : (claims : List (PermissionClaim X)) → AreNew [] claims
  AreNew-nothing [] = tt
  AreNew-nothing (claim ∷ rest) = (refl, AreNew-nothing rest)
