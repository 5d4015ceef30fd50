-- ===== src/Base/Keeps.antt =====
-- Actions that keep a property of the calls so far.
use mathlib.Core.Bool.{Bool, true, false}
use mathlib.Core.List.{List}
use kbind.Base.Tests.{if◌then◌else◌}
use kbind.Base.Results.{Result}
use kbind.Base.Exec.{Exec, ◌>>=◌, attempt, bind_post, attempt_post}

module _ {C : Type 0} (P : List C → Type 0) where
  abbrev pub Keeps : {A : Type 0} → Exec C A → Type 0
  Keeps m = (h : List C) → P h → P (m h).1

  pub Keeps-bind :
      {A B : Type 0} (m : Exec C A) (f : A → Exec C B)
      → Keeps m
      → ((a : A) → Keeps (f a))
      → Keeps (m >>= f)
  Keeps-bind m f km kf h p = bind_post m f P h (λ a _. kf a _ (km h p)) (λ _ _. km h p)

  pub Keeps-attempt :
      {A B : Type 0} (m : Exec C A) (f : Result A → Exec C B)
      → Keeps m
      → ((r : Result A) → Keeps (f r))
      → Keeps (attempt m >>= f)
  Keeps-attempt m f km kf h p = attempt_post m f P h (kf (m h).0 _ (km h p))

  pub if-Keeps :
      {A : Type 0} (b : Bool) (m k : Exec C A) → Keeps m → Keeps k → Keeps (if b then m else k)
  if-Keeps true m k km kk = km
  if-Keeps false m k km kk = kk
