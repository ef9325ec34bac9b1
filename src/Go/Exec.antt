-- ===== src/Go/Exec.antt =====
-- Calls that act on the world outside: what they return, and the world they leave. A panic leaves
-- what was done before it.
pub mod Laws
pub mod Calm
pub mod Keeps
use network_controller.Common.{◌≡◌, refl, Bool, true, false, if◌then◌else◌}
use network_controller.Go.Result.{Error, Result, ok, err, panics, hangs}

abbrev pub Exec {ℓ} : Type ℓ → Type ℓ → Type ℓ
Exec W A = W → Result A × W

module _ {ℓ} {W A : Type ℓ} where
  abbrev pub pure : A → Exec W A
  pure a w = (ok a, w)

  -- `return err`
  abbrev pub raise : Error → Exec W A
  raise e w = (err e, w)

  abbrev pub lift : Result A → Exec W A
  lift r w = (r, w)

  abbrev pub handle : Result A → (Error → Exec W A) → Exec W A
  handle (ok a) h w = (ok a, w)
  handle (err e) h w = h e w
  handle panics h w = (panics, w)
  handle hangs h w = (hangs, w)

  -- `if err != nil { … }` behind a call
  abbrev pub catch : Exec W A → (Error → Exec W A) → Exec W A
  catch m h w = let (r, w') = m w in handle r h w'

  -- An error that the code overwrites or only logs; the value is what the call returns beside it.
  abbrev pub ignoring : A → Exec W A → Exec W A
  ignoring a m = catch m (λ _. pure a)

-- The result of a call behind which a deferred one was made.
abbrev pub settle {ℓ} : {A B : Type ℓ} → Result A → Result B → Result A
settle r (ok b) = r
settle r (err e) = r
settle r panics = panics
settle r hangs = hangs

-- A call that returns nothing.
abbrev pub perform : {W : Type 0} → (W → W) → Exec W (Unit {0})
perform f w = (ok tt, f w)

module _ {ℓ} {W A B : Type ℓ} where
  abbrev pub continue : Result A → (A → Exec W B) → Exec W B
  continue (ok a) f w = f a w
  continue (err e) f w = (err e, w)
  continue panics f w = (panics, w)
  continue hangs f w = (hangs, w)

  infixl 5 ◌>>=◌ ◌>>◌
  abbrev pub ◌>>=◌ : Exec W A → (A → Exec W B) → Exec W B
  ◌>>=◌ m f w = let (r, w') = m w in continue r f w'

  abbrev pub ◌>>◌ : Exec W A → Exec W B → Exec W B
  m >> n = m >>= λ _. n

  -- `defer`: the second call is made however the first one ends, unless it never does.
  abbrev pub finally : Result A → Exec W B → Exec W A
  finally (ok a) d w = let (r, w') = d w in (settle (ok a) r, w')
  finally (err e) d w = let (r, w') = d w in (settle (err e) r, w')
  finally panics d w = let (r, w') = d w in (settle panics r, w')
  finally hangs d w = (hangs, w)

  abbrev pub deferring : Exec W B → Exec W A → Exec W A
  deferring d m w = let (r, w') = m w in finally r d w'
