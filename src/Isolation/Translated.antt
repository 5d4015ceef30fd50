-- ===== src/Isolation/Translated.antt =====
-- What a syncer reads at the key that its isolation strategy has translated.
use text.Mathlib.TextPositions.{eq_refl}
use kbind.Base.{
  String, ◌≡◌, refl, Bool, true, false, ◌&&◌, ◌=ˢ◌, Option, some, Result, ok, err, not_found,
}
use kbind.Objects.{NamespacedName}

abbrev pub is_gone : {A : Type 0} → Result A → Bool
is_gone (err not_found) = true
is_gone _ = false

-- Whether the key was translated to this namespace and name.
abbrev pub names_key : Result (Option NamespacedName) → String → String → Bool
names_key (ok (some key)) ns name = (ns =ˢ key.namespace) && (name =ˢ key.name)
names_key _ ns name = false

pub names_key_self :
    (key : NamespacedName) → names_key (ok (some key)) key.namespace key.name ≡ true
names_key_self key = rw (eq_refl key.namespace, eq_refl key.name) refl
