-- ===== src/Printer/Port/Linked.antt =====
-- Every operation on the port of frontend/src/services/ThermalPrinterService.ts keeps the port, the
-- writer and `isConnected` in agreement.
use blend_pos.Prelude.{
  ℕ, Option, none, some, ◌&&◌, ◌||◌, not, is_some, refl, Bool-cases, inl, inr, arith,
}
use blend_pos.Printer.Port.{
  Answers, Connection, PortInfo, is_set, set_last_port_info, open_port, try_candidate,
  auto_connect_if_possible, remember_port, connect_to, connect, disconnect, IsLinked,
}

pub open_port-IsLinked : (a : Answers) (p : ℕ) (c : Connection) → IsLinked (open_port a p c).0
unfolding open_port
open_port-IsLinked a p c = elim (Bool-cases (a.opens p)) [
  | inl opened ↦ rw opened (record { connected = λ _. refl; writer_of = λ _. refl })
  | inr refused ↦ rw refused (record { connected = λ h. h; writer_of = λ _. refl })
]

try_candidate-IsLinked :
    (a : Answers) (o : Option ℕ) (c : Connection) → IsLinked c → IsLinked (try_candidate a o c).0
unfolding try_candidate
try_candidate-IsLinked a none c h = h
try_candidate-IsLinked a (some p) c h = open_port-IsLinked a p c

pub auto_connect_if_possible-IsLinked :
    (a : Answers) (c : Connection) → IsLinked c → IsLinked (auto_connect_if_possible a c).0
unfolding auto_connect_if_possible
auto_connect_if_possible-IsLinked a c h =
    elim (Bool-cases (not (a.has_serial && a.has_get_ports))) [
      | inl without ↦ rw without h
      | inr with_serial ↦ elim (Bool-cases (c.is_connected && is_some c.writer)) [
        | inl already ↦ rw (with_serial, already) h
        | inr idle ↦ rw (with_serial, idle) (try_candidate-IsLinked a _ c h)
      ]
    ]

set_last_port_info-IsLinked :
    (a : Answers) (o : Option PortInfo) (c : Connection)
    → IsLinked c
    → IsLinked (set_last_port_info a o c)
unfolding set_last_port_info
set_last_port_info-IsLinked a none c h = record { connected = h.connected; writer_of = h.writer_of }
set_last_port_info-IsLinked a (some i) c h = elim (Bool-cases a.stores) [
  | inl stored ↦ rw stored (record { connected = h.connected; writer_of = h.writer_of })
  | inr full ↦ rw full h
]

remember_port-IsLinked :
    (a : Answers) (o : Option PortInfo) (c : Connection)
    → IsLinked c
    → IsLinked (remember_port a o c)
unfolding remember_port
remember_port-IsLinked a none c h = h
remember_port-IsLinked a (some i) c h =
    elim (Bool-cases (is_set i.usb_vendor_id || is_set i.usb_product_id)) [
      | inl known ↦ rw known (set_last_port_info-IsLinked a (some i) c h)
      | inr unknown ↦ rw unknown h
    ]

connect_to-IsLinked :
    (a : Answers) (o : Option ℕ) (c : Connection) → IsLinked c → IsLinked (connect_to a o c).0
unfolding connect_to
connect_to-IsLinked a none c h = record {
  connected = λ e. absurd (ground (arith, e));
  writer_of = h.writer_of;
}
connect_to-IsLinked a (some p) c h = elim (Bool-cases (open_port a p c).1) [
  | inl ok ↦ rw ok (remember_port-IsLinked a (a.info p) _ (open_port-IsLinked a p c))
  | inr failed ↦ rw failed (open_port-IsLinked a p c)
]

pub connect-IsLinked : (a : Answers) (c : Connection) → IsLinked c → IsLinked (connect a c).0
unfolding connect
connect-IsLinked a c h = elim (Bool-cases a.has_serial) [
  | inl serial ↦ rw serial (connect_to-IsLinked a a.requested c h)
  | inr without ↦ rw without h
]

pub disconnect-IsLinked : (a : Answers) (c : Connection) → IsLinked c → IsLinked (disconnect a c)
unfolding disconnect
disconnect-IsLinked a c h =
    let linked = h.writer_of in
    elim (Bool-cases (is_some c.writer)) [ inl writing ↦ ground arith | inr idle ↦ ground arith ]
