-- ===== src/Go/Exec/Calm.antt =====
-- Chains of calls that never panic.
use network_controller.Common.{◌≡◌, ◌≢◌, refl}
use network_controller.Go.Result.{Result, ok, err, panics, hangs, Error}
use network_controller.Go.Exec.{Exec, catch, handle, continue, ◌>>=◌}

module _ {W : Type 0} where
  -- A chain of calls that never panics.
  abbrev pub Calm : {A : Type 0} → Exec W A → Type 0
  Calm {A} m = (w : W) → (m w).0 ≢ panics

  pub continue-panics :
      {A B : Type 0} (r : Result A) (f : A → Exec W B) (v : W)
      → ((a : A) → Calm (f a))
      → (continue r f v).0 ≡ panics
      → r ≡ panics
  continue-panics (ok a) f v calm h = absurd (calm a v h)
  continue-panics (err e) f v calm h = absurd (cc)
  continue-panics panics f v calm h = refl
  continue-panics hangs f v calm h = absurd (cc)

  continue-calm_first :
      {A B : Type 0} (r : Result A) (f : A → Exec W B) (v : W)
      → r ≢ panics
      → (continue r f v).0 ≡ panics
      → (a : A) × (r ≡ ok a) × ((f a v).0 ≡ panics)
  continue-calm_first (ok a) f v calm h = (a, refl, h)
  continue-calm_first (err e) f v calm h = absurd (cc)
  continue-calm_first panics f v calm h = absurd (calm refl)
  continue-calm_first hangs f v calm h = absurd (cc)

  handle-Calm :
      {A : Type 0} (r : Result A) (h : Error → Exec W A) (v : W)
      → r ≢ panics
      → ((e : Error) → Calm (h e))
      → (handle r h v).0 ≢ panics
  handle-Calm (ok a) h v calm all e = absurd (cc)
  handle-Calm (err x) h v calm all e = all x v e
  handle-Calm panics h v calm all e = calm refl
  handle-Calm hangs h v calm all e = absurd (cc)

  -- The first call panics if the chain does and nothing behind it can.
  pub >>=-panics_first :
      {A B : Type 0} (m : Exec W A) (f : A → Exec W B) (w : W)
      → ((a : A) → Calm (f a))
      → ((m >>= f) w).0 ≡ panics
      → (m w).0 ≡ panics
  >>=-panics_first m f w calm h = let (r, v) = m w in continue-panics r f v calm h

  -- The rest panics, behind a first call that succeeded, if the chain does and the first call cannot.
  pub >>=-panics_rest :
      {A B : Type 0} (m : Exec W A) (f : A → Exec W B) (w : W)
      → (m w).0 ≢ panics
      → ((m >>= f) w).0 ≡ panics
      → (a : A) × ((m w).0 ≡ ok a) × ((f a (m w).1).0 ≡ panics)
  >>=-panics_rest m f w calm h = let (r, v) = m w in continue-calm_first r f v calm h

  pub >>=-Calm :
      {A B : Type 0} (m : Exec W A) (f : A → Exec W B)
      → Calm m
      → ((a : A) → Calm (f a))
      → Calm (m >>= f)
  >>=-Calm m f first rest w h = first w (>>=-panics_first m f w rest h)

  pub catch-Calm :
      {A : Type 0} (m : Exec W A) (h : Error → Exec W A)
      → Calm m
      → ((e : Error) → Calm (h e))
      → Calm (catch m h)
  catch-Calm m h calm all w = let (r, v) = m w in handle-Calm r h v (calm w) all
