-- ===== src/Tests/RegistryTests.antt =====
-- Registries with a few entries.
use Prim.Native.String.{String}
use dbdky_gcc.Common.{◌≡◌, refl, [], ◌∷◌, All, Option, some}
use dbdky_gcc.Common.Dict.{Dict, lookup}
use dbdky_gcc.Common.Int.{ℤ, pos}
use dbdky_gcc.Registry.{
  Param, MeasurePoint, MonitorUnit, ComConfig, PortEntry, unit_key, get_monitor_unit_by_name,
}
use dbdky_gcc.SerialPort.{start_timers}
use dbdky_gcc.SerialPort.Timers.{IsKeyed, start_timers-Finds}
use Prim.Native.Nat.{ℕ}

abbrev pub amp : Param
amp = record {
  name = "Amp";
  desc = "";
  unit = "mA";
  precision = "3";
  range = "";
  filter = "";
  addresslen = "";
  address = "";
  registernum = "";
}

abbrev pub point : MeasurePoint
point = record {
  deviceid = "D1";
  ied_name = "";
  id = "LN1";
  checktime = "";
  param_list = ("Amp", amp) ∷ [];
}

abbrev pub unit : MonitorUnit
unit = record {
  name = "U1";
  interval = "60000";
  protocolname = "MMXN";
  mac = "1";
  manufacturer = "";
  cycleid = "";
  ytime = "";
  measure_point_list = ("D1", point) ∷ [];
}

abbrev pub com_one : ComConfig
com_one = record {
  name = "COM1";
  desc = "";
  portname = "/dev/ttyS0";
  baudrate = "9600";
  databits = "8";
  stopbits = "1";
  parity = "";
  totaltimeout = "";
  intervaltimeout = "";
  inbuffersize = "";
  outbuffersize = "";
}

abbrev pub port : PortEntry
port = record { config = com_one; monitor_unit_list = ("MMXN1", unit) ∷ [] }

-- `lexical_cast` on the only number here.
abbrev pub three : String → Option ℕ
three text = lookup text (("3", 3) ∷ [])

abbrev pub minute_of : String → Option ℤ
minute_of text = lookup text (("60000", pos 60000) ∷ ("1", pos 1) ∷ [])

pub port-IsKeyed : All IsKeyed port.monitor_unit_list
unfolding unit_key
port-IsKeyed = ((refl, refl), tt)

start_timers-Finds_example :
    All
      (λ timer.
        (u : MonitorUnit) × (get_monitor_unit_by_name timer.1 port ≡ some u)
        × (unit_key u ≡ timer.1))
      (start_timers minute_of port.monitor_unit_list)
start_timers-Finds_example = start_timers-Finds minute_of port port-IsKeyed

abbrev old_precisions : Dict ℕ
old_precisions = ("TotA", 2) ∷ []

abbrev new_precisions : Dict ℕ
new_precisions = ("Amp", 3) ∷ []
