-- ===== src/Program/Signals.antt =====
-- pkg/signals: histories of signals and of turns of the goroutine that takes them.
use network_controller.Common.{
  ℕ, suc, ◌+◌, ◌≤◌, ◌<◌, ◌≡◌, refl, sym, ap, subst, arith, true, false, ◌↔◌, if◌then◌else◌, ltb,
  lt→ltb, ltb→lt, ◌∙◌,
}
use network_controller.Go.Result.{panics}
use network_controller.Go.Exec.{perform}
use network_controller.Program.{
  Process, Stage, new_process, setup_signal_handler, notify, take_signal,
}

-- The process behind the first `SetupSignalHandler`, after some signals.
pub data History : ℕ → Process → Type 0 where
  set_up : History 0 (setup_signal_handler new_process).1
  arrived : {n : ℕ} {p : Process} → History n p → History (suc n) (notify p)
  taken : {n : ℕ} {p : Process} → History n p → History n (take_signal p)
  called_again : {n : ℕ} {p : Process} → History n p → History n (setup_signal_handler p).1

-- The signals that the goroutine took.
abbrev taken_of : Stage → ℕ
taken_of Stage.first_wait = 0
taken_of Stage.second_wait = 1
taken_of Stage.gone = 2

-- The flags tell how many were taken, and of `n` signals none is lost before the second.
record IsTold (n : ℕ) (p : Process) : Type 0 where
  set : p.handler_set ≡ true
  stopped : p.stop_closed ≡ ltb 0 (taken_of p.stage)
  exited : p.exited ≡ ltb 1 (taken_of p.stage)
  no_more : taken_of p.stage + p.pending ≤ n
  first_kept : 1 ≤ n → 1 ≤ taken_of p.stage + p.pending
  second_kept : 2 ≤ n → 2 ≤ taken_of p.stage + p.pending

second_call : (p : Process) → p.handler_set ≡ true → setup_signal_handler p ≡ (panics, p)
unfolding setup_signal_handler
second_call p e =
    ap
      (λ b.
        if b
        then (panics, p)
        else perform
            (λ q. record q {
              handler_set = true;
              pending = 0;
              stage = Stage.first_wait;
              stop_closed = false;
            })
            p)
      e

History-IsTold : {n : ℕ} {p : Process} → History n p → IsTold n p
unfolding setup_signal_handler notify take_signal
History-IsTold set_up = record {
  set = refl;
  stopped = refl;
  exited = refl;
  no_more = omega arith;
  first_kept = λ l. l;
  second_kept = λ l. omega arith;
}
History-IsTold (arrived {n} {p} h) =
    let t = History-IsTold h in
    record {
      set = ground (arith, t.set);
      stopped = ground (arith, t.stopped);
      exited = ground (arith, t.exited);
      no_more = ground (arith, t.no_more);
      first_kept = λ l. ground (arith);
      second_kept = λ l. ground (arith, t.first_kept);
    }
History-IsTold (taken {n} {p} h) =
    let t = History-IsTold h in
    record {
      set = ground (arith, t.set);
      stopped = ground (arith, t.stopped);
      exited = ground (arith, t.exited);
      no_more = ground (arith, t.no_more);
      first_kept = λ l. ground (arith, t.first_kept);
      second_kept = λ l. ground (arith, t.second_kept);
    }
History-IsTold (called_again {n} {p} h) =
    subst (IsTold n) (sym (ap (λ r. r.1) (second_call p (History-IsTold h).set))) (History-IsTold h)

told_of :
    (k n : ℕ) (p : Process)
    → ltb k (taken_of p.stage) ≡ true
    → taken_of p.stage + p.pending ≤ n
    → k < n
told_of k n p h l = omega (arith, ltb→lt k (taken_of p.stage) h)

first_turn : (p : Process) → 1 ≤ taken_of p.stage + p.pending → 1 ≤ taken_of (take_signal p).stage
unfolding take_signal
first_turn p l = ground arith

second_turn :
    (p : Process)
    → 2 ≤ taken_of p.stage + p.pending
    → 1 ≤ taken_of p.stage
    → 2 ≤ taken_of (take_signal p).stage
unfolding take_signal
second_turn p l m = ground arith

turn-kept :
    (p : Process)
    → 2 ≤ taken_of p.stage + p.pending
    → 2 ≤ taken_of (take_signal p).stage + (take_signal p).pending
unfolding take_signal
turn-kept p l = ground arith

turn-grows : (p : Process) → taken_of p.stage ≤ taken_of (take_signal p).stage
unfolding take_signal
turn-grows p = ground arith

two_turns :
    (p : Process)
    → (1 ≤ taken_of p.stage + p.pending → 1 ≤ taken_of (take_signal (take_signal p)).stage)
      × (2 ≤ taken_of p.stage + p.pending → 2 ≤ taken_of (take_signal (take_signal p)).stage)
two_turns p = (
  λ l. omega (arith, first_turn p l, turn-grows (take_signal p)),
  λ l. second_turn (take_signal p) (turn-kept p l) (first_turn p (omega (arith, l))),
)

-- Once the first `SetupSignalHandler` was called: from `n` signals on, two more turns of the goroutine
-- have closed the stop channel exactly if at least one signal arrived, and have ended the program
-- exactly if at least two did, however the arrivals and the turns before were ordered; and each
-- further call of `SetupSignalHandler` panics.
pub two_turns-settled :
    {n : ℕ} {p : Process}
    → History n p
    → (((take_signal (take_signal p)).stop_closed ≡ true) ↔ (1 ≤ n))
      × (((take_signal (take_signal p)).exited ≡ true) ↔ (2 ≤ n))
      × (setup_signal_handler p ≡ (panics, p))
two_turns-settled {n} {p} h =
    let t = History-IsTold h in
    let u = History-IsTold (taken (taken h)) in
    let (one, two) = two_turns p in
    (
      (
        λ e. told_of 0 n (take_signal (take_signal p)) (sym u.stopped ∙ e) u.no_more,
        λ l. u.stopped ∙ lt→ltb 0 _ (one (t.first_kept l)),
      ),
      (
        λ e. told_of 1 n (take_signal (take_signal p)) (sym u.exited ∙ e) u.no_more,
        λ l. u.exited ∙ lt→ltb 1 _ (two (t.second_kept l)),
      ),
      second_call p t.set,
    )
