-- ===== src/Tests/LifeTests.antt =====
-- A port that was started and released, and is started again.
use dbdky_gcc.Common.{◌≡◌, refl, some, [], ◌∷◌, true, false}
use dbdky_gcc.Common.Dict.{lookup}
use dbdky_gcc.Registry.{unit_key}
use dbdky_gcc.Common.Int.{pos, negsuc}
use dbdky_gcc.SerialPort.{start_timers}
use dbdky_gcc.SerialPort.Life.{
  SerialPort, new_serial_port, Answers, init, init_from, open_device, configure, close_fd,
  cancel_timers, cancel_each, run_every, start_pool, start_all_timers, start_threads, start_with,
  start_port, close_device, release, fresh_pool,
}
use dbdky_gcc.SerialPort.Living.{
  starts, releases, step, Happens, created, moved, Steps, Happens-Steps,
}
use dbdky_gcc.Tests.RegistryTests.{port, minute_of}

abbrev opens_3 : Answers
opens_3 = record { opened = some 3; first_set = true; second_set = true }

-- tcsetattr fails the second time.
abbrev fails : Answers
fails = record { opened = some 3; first_set = true; second_set = false }

abbrev running : SerialPort
running = record (new_serial_port 6) {
  fd = pos 3;
  started = true;
  pool = some (fresh_pool 6);
  running_timers = (1, pos 60, "MMXN1") ∷ [];
  next_id = 2;
  open_fds = 3 ∷ [];
}

fails_first :
    start_port minute_of port.monitor_unit_list fails (new_serial_port 6) ≡ some (new_serial_port 6)
unfolding start_port start_with init init_from open_device configure close_fd cancel_timers
    cancel_each new_serial_port
fails_first = refl

starts_running :
    start_port minute_of port.monitor_unit_list opens_3 (new_serial_port 6) ≡ some running
unfolding start_port start_with init init_from open_device configure cancel_timers cancel_each
    new_serial_port start_threads start_pool start_all_timers run_every start_timers lookup unit_key
starts_running = refl

abbrev released : SerialPort
released = record running { fd = negsuc 0; open_fds = [] }

released-Happens : Happens minute_of port.monitor_unit_list 6 released
unfolding step release close_device close_fd new_serial_port
released-Happens =
    moved releases
      (moved (starts opens_3) (moved (starts fails) created fails_first) starts_running) refl

Happens-Steps_example :
    Steps minute_of port.monitor_unit_list
      (step minute_of port.monitor_unit_list (starts opens_3) released)
Happens-Steps_example =
    Happens-Steps minute_of port.monitor_unit_list 6 released (starts opens_3) released-Happens
