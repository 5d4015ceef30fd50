-- ===== src/Base/Exec.antt =====
-- Go code that calls an API server, as a function of the history of its calls. What a call answers
-- is any function of the calls before it, so the server and everybody else who writes to it may
-- answer anything at any time. `C` is the type of calls; the newest call stands first.
use mathlib.Core.Path.{◌≡◌, refl}
use mathlib.Core.List.{List, ◌∷◌}
use kbind.Base.Results.{Error, Result, ok, err}

abbrev pub Exec : Type 0 → Type 0 → Type 0
Exec C A = List C → Result A × List C

abbrev pub ret : {C A : Type 0} → A → Exec C A
ret a h = (ok a, h)

abbrev pub fail : {C A : Type 0} → Error → Exec C A
fail e h = (err e, h)

abbrev continue_with : {C A B : Type 0} → Result A → (A → Exec C B) → Exec C B
continue_with (ok a) f h = f a h
continue_with (err e) f h = (err e, h)

-- `v, err := m(); if err != nil { return err }; f(v)`
infixl 5 ◌>>=◌ ◌>>◌
unfoldable pub ◌>>=◌ : {C A B : Type 0} → Exec C A → (A → Exec C B) → Exec C B
◌>>=◌ m f h = continue_with (m h).0 f (m h).1

abbrev pub ◌>>◌ : {C A B : Type 0} → Exec C A → Exec C B → Exec C B
m >> k = m >>= λ _. k

-- `v, err := m()` where the code goes on to look at `err`
abbrev pub attempt : {C A : Type 0} → Exec C A → Exec C (Result A)
attempt m h = (ok (m h).0, (m h).1)

-- One call: it is recorded, and answered from the calls before it.
abbrev pub call : {C A : Type 0} → C → (List C → Result A) → Exec C A
call c answer h = (answer h, c ∷ h)

-- To prove something of the calls of a chain: of those of its second part if the first succeeds, and
-- of those of the first if it fails.
pub bind_post :
    {C A B : Type 0} (m : Exec C A) (f : A → Exec C B) (P : List C → Type 0) (h : List C)
    → ((a : A) → (m h).0 ≡ ok a → P (f a (m h).1).1)
    → ((e : Error) → (m h).0 ≡ err e → P (m h).1)
    → P ((m >>= f) h).1
unfolding ◌>>=◌
bind_post {A} m f P h on_ok on_err = go (m h).0 refl
  where
    go : (x : Result A) → (m h).0 ≡ x → P (continue_with x f (m h).1).1
    go (ok a) e = on_ok a e
    go (err x) e = on_err x e

pub attempt_post :
    {C A B : Type 0} (m : Exec C A) (f : Result A → Exec C B) (P : List C → Type 0) (h : List C)
    → P (f (m h).0 (m h).1).1
    → P ((attempt m >>= f) h).1
unfolding ◌>>=◌
attempt_post m f P h p = p

-- To prove something of the result and the calls of a chain.
pub bind_rule :
    {C A B : Type 0} (m : Exec C A) (f : A → Exec C B) (P : Result B × List C → Type 0) (h : List C)
    → ((a : A) → (m h).0 ≡ ok a → P (f a (m h).1))
    → ((e : Error) → (m h).0 ≡ err e → P (err e, (m h).1))
    → P ((m >>= f) h)
unfolding ◌>>=◌
bind_rule {A} m f P h on_ok on_err = go (m h).0 refl
  where
    go : (x : Result A) → (m h).0 ≡ x → P (continue_with x f (m h).1)
    go (ok a) e = on_ok a e
    go (err x) e = on_err x e
