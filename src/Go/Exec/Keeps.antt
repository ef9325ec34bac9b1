-- ===== src/Go/Exec/Keeps.antt =====
-- What a call leaves true of the world, however it ends: one rule for each way to build a call.
use network_controller.Common.{Option, none, some, ◌≡◌, refl, Bool, true, false, if◌then◌else◌}
use network_controller.Go.Result.{Error, Result, ok, err, panics, hangs}
use network_controller.Go.Exec.{
  Exec, pure, raise, lift, handle, catch, ignoring, continue, finally, deferring, ◌>>=◌,
}

-- From a world in which `P` holds, the call ends in one in which `Q` does.
pub record Leads {W A : Type 0} (P : W → Type 0) (call : Exec W A) (Q : W → Type 0) : Type 0 where
  pub leads : (w : W) → P w → Q (call w).1

abbrev pub Keeps : {W A : Type 0} → (W → Type 0) → Exec W A → Type 0
Keeps P call = Leads P call P

-- The call changes what `view` shows of the world by at most a step of `R`.
pub record Within {W V A : Type 0} (R : V → V → Type 0) (view : W → V) (call : Exec W A)
    : Type 0 where
  pub within : (w : W) → R (view (call w).1) (view w)

module _ {W V A : Type 0} (R : V → V → Type 0) (view : W → V) where
  -- It keeps what each step of `R` keeps.
  pub Keeps-of_Within :
      (Q : V → Type 0)
      → ((v v' : V) → R v' v → Q v → Q v')
      → (call : Exec W A) → Within R view call
      → Keeps (λ w. Q (view w)) call
  Keeps-of_Within Q closed call m = record {
    leads = λ w q. closed (view w) (view (call w).1) (m.within w) q;
  }

  pub Within-of_Keeps :
      ((v : V) → R v v)
      → (call : Exec W A) → ((o : V) → Keeps (λ w. R (view w) o) call)
      → Within R view call
  Within-of_Keeps refl_R call k = record { within = λ w. (k (view w)).leads w (refl_R (view w)) }

module _ {W A B : Type 0} (P Q R : W → Type 0) where
  continue-Leads :
      (r : Result A) (next : A → Exec W B) (w : W)
      → Q w
      → ((a : A) → Leads Q (next a) R)
      → ((v : W) → Q v → R v)
      → R (continue r next w).1
  continue-Leads (ok a) next w q steps out = (steps a).leads w q
  continue-Leads (err e) next w q steps out = out w q
  continue-Leads panics next w q steps out = out w q
  continue-Leads hangs next w q steps out = out w q

  -- A chain; `Q` must be good enough for the end, since the first part may fail.
  pub >>=-Leads :
      (m : Exec W A) (next : A → Exec W B)
      → Leads P m Q
      → ((a : A) → Leads Q (next a) R)
      → ((v : W) → Q v → R v)
      → Leads P (m >>= next) R
  >>=-Leads m next first steps out = record {
    leads = λ w p. continue-Leads (m w).0 next (m w).1 (first.leads w p) steps out;
  }

module _ {W A B : Type 0} (P : W → Type 0) where
  continue-returned :
      (r : Result A) (next : A → Exec W B) (w : W)
      → P w
      → ((a : A) → r ≡ ok a → P (next a w).1)
      → P (continue r next w).1
  continue-returned (ok a) next w p step = step a refl
  continue-returned (err e) next w p step = p
  continue-returned panics next w p step = p
  continue-returned hangs next w p step = p

  -- A chain from one world, whose second part is judged by what the first one returned.
  pub >>=-returned :
      (m : Exec W A) (next : A → Exec W B) (w : W)
      → P (m w).1
      → ((a : A) → (m w).0 ≡ ok a → P (next a (m w).1).1)
      → P ((m >>= next) w).1
  >>=-returned m next w p step = continue-returned (m w).0 next (m w).1 p step

  finally-Keeps : (r : Result A) (d : Exec W B) (w : W) → P w → Keeps P d → P (finally r d w).1
  finally-Keeps (ok a) d w p k = k.leads w p
  finally-Keeps (err e) d w p k = k.leads w p
  finally-Keeps panics d w p k = k.leads w p
  finally-Keeps hangs d w p k = p

  pub deferring-Keeps :
      (d : Exec W B) (m : Exec W A) → Keeps P d → Keeps P m → Keeps P (deferring d m)
  deferring-Keeps d m kd km = record {
    leads = λ w p. finally-Keeps (m w).0 d (m w).1 (km.leads w p) kd;
  }

module _ {W A : Type 0} (P Q : W → Type 0) where
  handle-Keeps :
      (r : Result A) (h : Error → Exec W A) (w : W)
      → Q w
      → ((e : Error) → Keeps Q (h e))
      → Q (handle r h w).1
  handle-Keeps (ok a) h w q k = q
  handle-Keeps (err e) h w q k = (k e).leads w q
  handle-Keeps panics h w q k = q
  handle-Keeps hangs h w q k = q

  pub catch-Leads :
      (m : Exec W A) (h : Error → Exec W A)
      → Leads P m Q
      → ((e : Error) → Keeps Q (h e))
      → Leads P (catch m h) Q
  catch-Leads m h km kh = record { leads = λ w p. handle-Keeps (m w).0 h (m w).1 (km.leads w p) kh }

-- The rules for a property that holds before and after; `P` stands first, for a block that fixes it.
module _ {W : Type 0} (P : W → Type 0) where
  pub pure-Keeps : {A : Type 0} (a : A) → Keeps P (pure {W = W} a)
  pure-Keeps a = record { leads = λ w p. p }

  pub raise-Keeps : {A : Type 0} (e : Error) → Keeps P (raise {W = W} {A = A} e)
  raise-Keeps e = record { leads = λ w p. p }

  pub lift-Keeps : {A : Type 0} (r : Result A) → Keeps P (lift {W = W} r)
  lift-Keeps r = record { leads = λ w p. p }

  pub >>=-Keeps :
      {A B : Type 0} (m : Exec W A) (next : A → Exec W B)
      → Keeps P m
      → ((a : A) → Keeps P (next a))
      → Keeps P (m >>= next)
  >>=-Keeps m next first steps = >>=-Leads P P P m next first steps (λ v p. p)

  pub catch-Keeps :
      {A : Type 0} (m : Exec W A) (h : Error → Exec W A)
      → Keeps P m
      → ((e : Error) → Keeps P (h e))
      → Keeps P (catch m h)
  catch-Keeps m h km kh = catch-Leads P P m h km kh

  pub if-Keeps :
      {A : Type 0} (b : Bool) (m n : Exec W A)
      → Keeps P m
      → Keeps P n
      → Keeps P (if b then m else n)
  if-Keeps true m n km kn = km
  if-Keeps false m n km kn = kn

  pub option-Keeps :
      {A B : Type 0} (o : Option B) (m : Exec W A) (next : B → Exec W A)
      → Keeps P m
      → ((b : B) → Keeps P (next b))
      → Keeps P (elim o [ none ↦ m | some b ↦ next b ])
  option-Keeps none m next km kn = km
  option-Keeps (some b) m next km kn = kn b

  pub ignoring-Keeps : {A : Type 0} (a : A) (m : Exec W A) → Keeps P m → Keeps P (ignoring a m)
  ignoring-Keeps a m km = catch-Keeps m (λ _. pure a) km (λ e. pure-Keeps a)

pub ruleset keeps_rules = (
  pure-Keeps, raise-Keeps, lift-Keeps, >>=-Keeps, catch-Keeps, ignoring-Keeps, if-Keeps,
  deferring-Keeps,
)
