-- ===== src/Go/Exec/Laws.antt =====
-- Inversion of calls that succeed.
use network_controller.Common.{◌≡◌, ◌≢◌, refl, ap, ◌⊎◌, inl, inr}
use network_controller.Go.Result.{Error, Result, ok, err, panics, hangs}
use network_controller.Go.Exec.{Exec, pure, handle, catch, ignoring, continue, ◌>>=◌}

module _ {W A B : Type 0} where
  continue-eq-ok :
      (r : Result A) (f : A → Exec W B) (v : W) {b : B}
      → (continue r f v).0 ≡ ok b
      → (a : A) × (r ≡ ok a) × ((f a v).0 ≡ ok b)
  continue-eq-ok (ok a) f v h = (a, refl, h)
  continue-eq-ok (err e) f v h = absurd (cc)
  continue-eq-ok panics f v h = absurd (cc)
  continue-eq-ok hangs f v h = absurd (cc)

  continue-cong :
      (r : Result A) (f g : A → Exec W B) (v : W)
      → ((a : A) → f a v ≡ g a v)
      → continue r f v ≡ continue r g v
  continue-cong (ok a) f g v h = h a
  continue-cong (err e) f g v h = refl
  continue-cong panics f g v h = refl
  continue-cong hangs f g v h = refl

  -- A chain succeeds if both parts do.
  pub >>=-eq-ok :
      (m : Exec W A) (f : A → Exec W B) (w : W) {b : B}
      → ((m >>= f) w).0 ≡ ok b
      → (a : A) × ((m w).0 ≡ ok a) × ((f a (m w).1).0 ≡ ok b)
  >>=-eq-ok m f w h = let (r, v) = m w in continue-eq-ok r f v h

  -- Behind a call that succeeds, the chain is its second part.
  pub >>=-first_ok :
      (m : Exec W A) (f : A → Exec W B) (w : W) (a : A) → (m w).0 ≡ ok a → (m >>= f) w ≡ f a (m w).1
  >>=-first_ok m f w a e = ap (λ r. continue r f (m w).1) e

  -- Two continuations that agree in the world that a call leaves may stand for one another.
  pub >>=-cong :
      (m : Exec W A) (f g : A → Exec W B) (w : W)
      → ((a : A) → f a (m w).1 ≡ g a (m w).1)
      → (m >>= f) w ≡ (m >>= g) w
  >>=-cong m f g w h = let (r, v) = m w in continue-cong r f g v h

module _ {W A : Type 0} where
  handle-eq-ok :
      (r : Result A) (d : A) (v : W) {a : A}
      → (handle r (λ _. pure d) v).0 ≡ ok a
      → (r ≡ ok a) ⊎ ((e : Error) × (r ≡ err e) × (a ≡ d))
  handle-eq-ok (ok x) d v h = inl h
  handle-eq-ok (err e) d v h = inr (e, refl, cc)
  handle-eq-ok panics d v h = absurd (cc)
  handle-eq-ok hangs d v h = absurd (cc)

  -- What a call returned whose error was overwritten.
  pub ignoring-eq-ok :
      (d : A) (m : Exec W A) (w : W) {a : A}
      → (ignoring d m w).0 ≡ ok a
      → ((m w).0 ≡ ok a) ⊎ ((e : Error) × ((m w).0 ≡ err e) × (a ≡ d))
  ignoring-eq-ok d m w h = let (r, v) = m w in handle-eq-ok r d v h

  handle-raised :
      (r : Result A) (h : Error → Exec W A) (v : W) (a : A)
      → ((e : Error) (u : W) → (h e u).0 ≢ ok a)
      → (handle r h v).0 ≡ ok a
      → (r ≡ ok a) × ((handle r h v).1 ≡ v)
  handle-raised (ok x) h v a never e = (e, refl)
  handle-raised (err x) h v a never e = absurd (never x v e)
  handle-raised panics h v a never e = absurd (cc)
  handle-raised hangs h v a never e = absurd (cc)

  -- A call whose errors are raised again by what handles them: where it succeeds, it was never
  -- interrupted.
  pub catch-raised :
      (m : Exec W A) (h : Error → Exec W A) (w : W) (a : A)
      → ((e : Error) (u : W) → (h e u).0 ≢ ok a)
      → (catch m h w).0 ≡ ok a
      → ((m w).0 ≡ ok a) × ((catch m h w).1 ≡ (m w).1)
  catch-raised m h w a never e = let (r, v) = m w in handle-raised r h v a never e

-- A call whose outcome is turned into a value leaves the world that it made.
pub catch-pure_world :
    {W A B : Type 0} (m : Exec W A) (b : B) (h : Error → B) (w : W)
    → (catch (m >>= λ _. pure b) (λ e. pure (h e)) w).1 ≡ (m w).1
catch-pure_world m b h w = let (r, v) = m w in settled-world b h r v
  where
    settled-world :
        {W A B : Type 0} (b : B) (h : Error → B) (r : Result A) (v : W)
        → (handle (continue r (λ _. pure b) v).0 (λ e. pure (h e)) (continue r (λ _. pure b) v).1).1
          ≡ v
    settled-world b h (ok a) v = refl
    settled-world b h (err e) v = refl
    settled-world b h panics v = refl
    settled-world b h hangs v = refl

module _ {W A B C : Type 0} where
  continue_assoc :
      (r : Result A) (f : A → Exec W B) (g : B → Exec W C) (v : W)
      → (let (r', v') = continue r f v in continue r' g v') ≡ continue r (λ a. f a >>= g) v
  continue_assoc (ok a) f g v = refl
  continue_assoc (err e) f g v = refl
  continue_assoc panics f g v = refl
  continue_assoc hangs f g v = refl

  pub >>=-assoc :
      (m : Exec W A) (f : A → Exec W B) (g : B → Exec W C) (w : W)
      → ((m >>= f) >>= g) w ≡ (m >>= λ a. f a >>= g) w
  >>=-assoc m f g w = let (r, v) = m w in continue_assoc r f g v
