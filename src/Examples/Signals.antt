-- ===== src/Examples/Signals.antt =====
-- A run of the theorem about signals: two arrive, and a turn of the goroutine lies between them.
use network_controller.Common.{◌≤◌, ◌≡◌, ◌↔◌, true}
use network_controller.Go.Result.{panics}
use network_controller.Program.{Process, new_process, setup_signal_handler, notify, take_signal}
use network_controller.Program.Signals.{History, two_turns-settled}

abbrev after_two : Process
after_two = notify (take_signal (notify (setup_signal_handler new_process).1))

two_turns-settled_example :
    (((take_signal (take_signal after_two)).stop_closed ≡ true) ↔ (1 ≤ 2))
    × (((take_signal (take_signal after_two)).exited ≡ true) ↔ (2 ≤ 2))
    × (setup_signal_handler after_two ≡ (panics, after_two))
two_turns-settled_example =
    two_turns-settled (History.arrived (History.taken (History.arrived History.set_up)))
