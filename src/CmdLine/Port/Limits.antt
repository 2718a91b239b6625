-- ===== src/CmdLine/Port/Limits.antt =====
-- The limits of the parameters behind `process_port_type`.
use rteget_data_linux_compat.CmdLine.Options.Limits.{
  Accepts, InLimits, if-Accepts, kept, none-Accepts, some-Accepts,
}
use rteget_data_linux_compat.CmdLine.Port.{
  behind_name, frame_of, is_serial_name, name_before, name_given, process_com_port,
  process_port_type, set_frame, set_gdb_port, set_speed, with_com_defaults,
}
use rteget_data_linux_compat.Prelude.{
  List, Option, arith, inr, next, none, peek, refl, some, ℕ, ◌==◌,
}
use rteget_data_linux_compat.Scan.{scan_long, scan_word}
use rteget_data_linux_compat.State.{Parameters, Parity, StopBits}

com_defaults-InLimits :
    (name : List ℕ) (p : Parameters) → InLimits p → InLimits (with_com_defaults name p)
unfolding with_com_defaults
com_defaults-InLimits name p h = record {
  drivers = h.drivers;
  message = inr (omega arith, omega arith);
}

set_frame-Accepts :
    (n : ℕ) (r : Option (Parity × StopBits)) (p : Parameters)
    → InLimits p
    → Accepts (set_frame n r p)
unfolding set_frame
set_frame-Accepts n none p h = none-Accepts
set_frame-Accepts n (some (frame_parity, bits)) p h = kept h _ refl refl

set_speed-Accepts :
    (r : Option (ℕ × List ℕ)) (p : Parameters) → InLimits p → Accepts (set_speed r p)
unfolding set_speed
set_speed-Accepts none p h = none-Accepts
set_speed-Accepts (some (n, rest)) p h = set_frame-Accepts n (frame_of rest) p h

process_com_port-Accepts :
    (text : List ℕ) (p : Parameters) → InLimits p → Accepts (process_com_port text p)
unfolding process_com_port
process_com_port-Accepts text p h =
    let rest = behind_name text in
    let q = with_com_defaults (name_before text rest) p in
    let k = com_defaults-InLimits (name_before text rest) p h in
    if-Accepts (peek rest == 0) (if-Accepts (name_given text) (some-Accepts q k) none-Accepts) (
      if-Accepts (peek rest == b'=') (set_speed-Accepts (scan_long 10 (next rest)) q k)
        none-Accepts)

set_gdb_port-Accepts :
    (r : Option (ℕ × List ℕ)) (p : Parameters) → InLimits p → Accepts (set_gdb_port r p)
unfolding set_gdb_port
set_gdb_port-Accepts none p h = none-Accepts
set_gdb_port-Accepts (some (n, rest)) p h = kept h _ refl refl

-- The port's parameters are within the limits.
pub process_port_type-Accepts :
    (text : List ℕ) (p : Parameters) → InLimits p → Accepts (process_port_type text p)
unfolding process_port_type
process_port_type-Accepts text p h =
    if-Accepts (is_serial_name text) (process_com_port-Accepts text p h)
      (set_gdb_port-Accepts (scan_word 10 text) p h)
