-- ===== src/Base/Dict.antt =====
-- Go maps as association lists with the newest value of a key in place, `map[K]V` for texts as keys.
use text.Mathlib.TextEquality.{eq_iff}
use text.Mathlib.TextPositions.{eq_refl}
use kbind.Base.Tests.{if◌then◌else◌, Bool-cases}
use Prim.Native.String.{String}
use mathlib.Core.Path.{◌≡◌, refl, ◌∙◌}
use mathlib.Core.Logic.{inl, inr}
use mathlib.Core.Option.{Option, none, some}
use mathlib.Core.List.{List, [], ◌∷◌}
use native.Mathlib.Omega.{arith}
use text.Mathlib.Text.{◌==◌}

abbrev pub Dict {ℓ} : Type ℓ → Type ℓ
Dict V = List (String × V)

module _ {ℓ} {V : Type ℓ} where
  unfoldable pub lookup : String → Dict V → Option V
  lookup key [] = none
  lookup key ((k, value) ∷ rest) = if k == key then some value else lookup key rest

  -- `delete(m, key)`
  unfoldable pub remove : String → Dict V → Dict V
  remove key [] = []
  remove key ((k, value) ∷ rest) =
      if k == key then remove key rest else (k, value) ∷ remove key rest

  -- `m[key] = new`
  unfoldable pub insert : String → V → Dict V → Dict V
  insert key new [] = (key, new) ∷ []
  insert key new ((k, value) ∷ rest) =
      if k == key then (key, new) ∷ rest else (k, value) ∷ insert key new rest

  pub lookup-insert :
      (key asked : String) (new : V) (m : Dict V)
      → lookup asked (insert key new m) ≡ (if key == asked then some new else lookup asked m)
  unfolding insert lookup
  lookup-insert key asked new [] = refl
  lookup-insert key asked new ((k, value) ∷ rest) =
      let later = lookup-insert key asked new rest in
      ground (arith, later, eq_iff k key, eq_iff k asked, eq_iff key asked)

  pub lookup-remove :
      (k j : String) (m : Dict V) → lookup j (remove k m) ≡ (if k == j then none else lookup j m)
  unfolding lookup remove
  lookup-remove k j [] = ground arith
  lookup-remove k j ((i, w) ∷ m) =
      ground (arith, eq_iff k j, eq_iff i k, eq_iff i j, lookup-remove k j m)

  pub lookup-insert_self : (k : String) (v : V) (m : Dict V) → lookup k (insert k v m) ≡ some v
  lookup-insert_self k v m = simp (lookup-insert, eq_refl)

  pub lookup-remove_self : (k : String) (m : Dict V) → lookup k (remove k m) ≡ none
  lookup-remove_self k m = simp (lookup-remove, eq_refl)

-- Every key is there once.
abbrev pub DistinctKeys {ℓ} : {V : Type ℓ} → Dict V → Type ℓ
DistinctKeys [] = Unit
DistinctKeys ((k, v) ∷ m) = (lookup k m ≡ none) × DistinctKeys m

module _ {ℓ} {V : Type ℓ} where
  pub DistinctKeys-remove : (k : String) (m : Dict V) → DistinctKeys m → DistinctKeys (remove k m)
  unfolding remove
  DistinctKeys-remove k [] d = d
  DistinctKeys-remove k ((i, w) ∷ m) d = elim (Bool-cases (i == k)) [
    | inl e ↦ rw e (DistinctKeys-remove k m d.1)
    | inr e ↦ rw e (lookup-remove k i m ∙ ground (arith, d.0), DistinctKeys-remove k m d.1)
  ]

  pub DistinctKeys-insert :
      (k : String) (v : V) (m : Dict V) → DistinctKeys m → DistinctKeys (insert k v m)
  unfolding insert lookup
  DistinctKeys-insert k v [] d = (refl, tt)
  DistinctKeys-insert k v ((i, w) ∷ m) d = elim (Bool-cases (i == k)) [
    | inl e ↦ rw e (ground (arith, eq_iff i k, d.0), d.1)
    | inr e ↦ rw e (
      lookup-insert k i v m ∙ ground (arith, eq_iff i k, eq_iff k i, d.0),
      DistinctKeys-insert k v m d.1,
    )
  ]
