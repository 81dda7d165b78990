-- ===== src/Printer/Cancelled.antt =====
-- What becomes of a connected printer in frontend/src/services/ThermalPrinterService.ts when the user
-- opens the browser's list of ports and picks none.
use blend_pos.Prelude.{
  ℕ, ◌≡◌, refl, Option, none, some, [], ◌∷◌, true, false, ◌||◌, Bool-cases, inl, inr,
}
use blend_pos.Number.{Number}
use blend_pos.Sale.{SaleRecord}
use blend_pos.Printer.{PartialConfig, Format}
use blend_pos.Printer.Preview.{build_ticket_buffer}
use blend_pos.Printer.Port.{
  Answers, Connection, PortInfo, get_last_port_info, is_set, matches_port, saved_candidate,
  only_port, candidate, try_candidate, open_port, auto_connect_if_possible, connect, connect_to,
}
use blend_pos.Printer.Printing.{on_console, connection_for, print_esc_pos}

-- the port that is found when only one is authorised
only_port-single : (a : Answers) (c : Connection) (p : ℕ) → candidate a c (p ∷ []) ≡ some p
unfolding candidate saved_candidate only_port
only_port-single a c p = single (get_last_port_info c)
  where
    single : (o : Option PortInfo) → only_port (saved_candidate a o (p ∷ [])) (p ∷ []) ≡ some p
    single none = refl
    single (some i) = elim (Bool-cases (is_set i.usb_vendor_id || is_set i.usb_product_id)) [
      | inl known ↦ elim (Bool-cases (matches_port a i p)) [
        | inl found ↦ rw (known, found) refl
        | inr other ↦ rw (known, other) refl
      ]
      | inr unknown ↦ rw unknown refl
    ]

-- the browser has the serial interface, `p` is the only port it authorised, and it is open already,
-- so that `open` refuses it
pub record IsBusy (b : Answers) (p : ℕ) : Type 0 where
  pub serial : b.has_serial ≡ true
  pub get_ports : b.has_get_ports ≡ true
  pub one : b.authorised ≡ some (p ∷ [])
  pub refuses : b.opens p ≡ false

-- the connection after a port was not opened
abbrev pub dropped : Connection → Connection
dropped c = record c { port = none; writer = none; is_connected = false }

reconnect_busy :
    (b : Answers) (p : ℕ) (c : Connection)
    → IsBusy b p
    → c.is_connected ≡ false
    → auto_connect_if_possible b c ≡ (dropped c, false)
unfolding auto_connect_if_possible try_candidate open_port
reconnect_busy b p c busy off =
    simp (busy.serial, busy.get_ports, busy.one, off, busy.refuses, only_port-single)

-- When the user opens the list of ports and picks none, the printer counts as not connected, with its
-- port and its writer kept. If the only authorised port is open then, so that the browser refuses to
-- open it once more, the next receipt goes to the console, and the port and the writer are forgotten.
pub connect-cancelled :
    {W : Type 0} ⦃d : Number W⦄
    → (f : Format W) (cfg : PartialConfig) (sale : SaleRecord W) (copy p : ℕ) (a b : Answers)
    → (c : Connection) → a.has_serial ≡ true
    → a.requested ≡ none
    → IsBusy b p
    → (connect a c ≡ (record c { is_connected = false }, false))
      × (print_esc_pos f cfg sale b copy (connect a c).0
          ≡ (dropped c, on_console (build_ticket_buffer f copy sale)))
unfolding connect connect_to print_esc_pos connection_for
connect-cancelled f cfg sale copy p a b c serial none_picked busy =
    let again = reconnect_busy b p (record c { is_connected = false }) busy refl in
    (simp (serial, none_picked), simp (serial, none_picked, again))
