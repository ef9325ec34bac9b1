-- ===== src/Program.antt =====
-- pkg/signals: the stop channel of the program. The channel of signals holds two of them; the runtime
-- puts a signal into it without waiting, and drops one that finds it full.
pub mod Signals
pub mod Main
pub mod Started
use network_controller.Common.{ℕ, zero, suc, ◌+◌, Bool, true, false, if◌then◌else◌, ltb}
use network_controller.Go.Result.{panics}
use network_controller.Go.Exec.{Exec, pure, lift, perform, ◌>>=◌, ◌>>◌}

-- Where the goroutine of `SetupSignalHandler` stands.
pub data Stage : Type 0 where
  first_wait second_wait gone : Stage

-- The variable `onlyOneSignalHandler` with `stop` and `c`; `exited` is `os.Exit(1)`.
pub record Process : Type 0 where
  pub handler_set : Bool
  pub pending : ℕ
  pub stage : Stage
  pub stop_closed : Bool
  pub exited : Bool

-- Before any call.
abbrev pub new_process : Process
new_process = record {
  handler_set = false;
  pending = 0;
  stage = Stage.gone;
  stop_closed = false;
  exited = false;
}

-- The second call closes a closed channel.
unfoldable pub setup_signal_handler : Exec Process (Unit {0})
setup_signal_handler p =
    if p.handler_set
    then lift panics p
    else perform
        (λ q. record q {
          handler_set = true;
          pending = 0;
          stage = Stage.first_wait;
          stop_closed = false;
        })
        p

-- A signal arrives; `make(chan os.Signal, 2)`.
unfoldable pub notify : Process → Process
notify p = if ltb p.pending 2 then record p { pending = p.pending + 1 } else p

-- The goroutine takes a signal, if there is one.
unfoldable pub take_signal : Process → Process
take_signal p = elim p.pending [
  | zero ↦ p
  | suc n ↦ elim p.stage [
    | first_wait ↦ record p { pending = n; stage = Stage.second_wait; stop_closed = true }
    | second_wait ↦ record p { pending = n; stage = Stage.gone; exited = true }
    | gone ↦ p
  ]
]
