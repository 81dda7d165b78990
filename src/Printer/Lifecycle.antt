-- ===== src/Printer/Lifecycle.antt =====
-- frontend/src/services/ThermalPrinterService.ts over a whole session: connecting, printing, opening
-- the drawer and loading the page again, in any order.
use blend_pos.Prelude.{
  ℕ, zero, suc, ◌≡◌, refl, Option, some, List, [], ◌∷◌, foldl, Bool, true, false, ◌&&◌,
  if◌then◌else◌, get_or, is_some, arith,
}
use blend_pos.Number.{Number}
use blend_pos.Sale.{SaleRecord}
use blend_pos.Printer.{PartialConfig, Format}
use blend_pos.Printer.Receipt.{build_esc_pos_buffer}
use blend_pos.Printer.Preview.{build_ticket_buffer}
use blend_pos.Printer.Port.{
  Answers, Connection, StoredPort, new_connection, auto_connect_if_possible, connect, disconnect,
  IsLinked,
}
use blend_pos.Printer.Port.Linked.{
  auto_connect_if_possible-IsLinked, connect-IsLinked, disconnect-IsLinked,
}
use blend_pos.Printer.Printing.{
  Output, sent, on_console, write_or, connection_for, open_cash_drawer, print_esc_pos, print_copies,
  print_all,
}

pub data PrinterOp (W : Type 0) : Type 0 where
  connects : Answers → PrinterOp W
  disconnects : Answers → PrinterOp W
  reconnects : Answers → PrinterOp W
  opens_drawer : Answers → PrinterOp W
  prints : (ℕ → Answers) → PartialConfig → SaleRecord W → PrinterOp W
  reloads : PrinterOp W

pub new_connection-IsLinked : (o : Option StoredPort) → IsLinked (new_connection o)
unfolding new_connection
new_connection-IsLinked o = record {
  connected = λ h. h;
  writer_of = λ h. absurd (ground (arith, h));
}

either-IsLinked :
    (b : Bool) (x y : Connection × Bool)
    → IsLinked x.0
    → IsLinked y.0
    → IsLinked (if b then x else y).0
either-IsLinked true x y hx hy = hx
either-IsLinked false x y hx hy = hy

connection_for-IsLinked :
    (a : Answers) (c : Connection) → IsLinked c → IsLinked (connection_for a c).0
unfolding connection_for
connection_for-IsLinked a c h =
    either-IsLinked (c.is_connected && is_some c.writer) (c, true) (auto_connect_if_possible a c) h
      (auto_connect_if_possible-IsLinked a c h)

module _ {W : Type 0} ⦃d : Number W⦄ (f : Format W) where
  unfoldable pub apply_printer_op : Connection → PrinterOp W → Connection
  unfolding connect disconnect auto_connect_if_possible open_cash_drawer print_all new_connection
  apply_printer_op c (connects a) = (connect a c).0
  apply_printer_op c (disconnects a) = disconnect a c
  apply_printer_op c (reconnects a) = (auto_connect_if_possible a c).0
  apply_printer_op c (opens_drawer a) = (open_cash_drawer a c).0
  apply_printer_op c (prints answers cfg sale) = (print_all f cfg sale answers c).0
  apply_printer_op c reloads = new_connection c.last_port_info

  unfoldable pub run_printer_ops : Connection → List (PrinterOp W) → Connection
  unfolding apply_printer_op
  run_printer_ops = foldl apply_printer_op

  print_copies-IsLinked :
      (cfg : PartialConfig) (sale : SaleRecord W) (answers : ℕ → Answers) (n i : ℕ) (c : Connection)
      → IsLinked c
      → IsLinked (print_copies f cfg sale answers n i c).0
  unfolding print_copies print_esc_pos
  print_copies-IsLinked cfg sale answers zero i c h = h
  print_copies-IsLinked cfg sale answers (suc n) i c h =
      print_copies-IsLinked cfg sale answers n (suc i) (connection_for (answers i) c).0
        (connection_for-IsLinked (answers i) c h)

  apply_printer_op-IsLinked :
      (c : Connection) (op : PrinterOp W) → IsLinked c → IsLinked (apply_printer_op c op)
  unfolding apply_printer_op open_cash_drawer print_all
  apply_printer_op-IsLinked c (connects a) h = connect-IsLinked a c h
  apply_printer_op-IsLinked c (disconnects a) h = disconnect-IsLinked a c h
  apply_printer_op-IsLinked c (reconnects a) h = auto_connect_if_possible-IsLinked a c h
  apply_printer_op-IsLinked c (opens_drawer a) h = connection_for-IsLinked a c h
  apply_printer_op-IsLinked c (prints answers cfg sale) h =
      print_copies-IsLinked cfg sale answers (get_or cfg.copies 1) 1 c h
  apply_printer_op-IsLinked c reloads h = new_connection-IsLinked c.last_port_info

  run_from-IsLinked :
      (ops : List (PrinterOp W)) (c : Connection) → IsLinked c → IsLinked (run_printer_ops c ops)
  unfolding run_printer_ops
  run_from-IsLinked [] c h = h
  run_from-IsLinked (op ∷ ops) c h =
      run_from-IsLinked ops (apply_printer_op c op) (apply_printer_op-IsLinked c op h)

  -- After any operations, whatever the browser and the printer answer, a printer that counts as
  -- connected has a writer, and the writer is that of the port that is kept.
  pub run_printer_ops-IsLinked :
      (stored : Option StoredPort) (ops : List (PrinterOp W))
      → IsLinked (run_printer_ops (new_connection stored) ops)
  run_printer_ops-IsLinked stored ops =
      run_from-IsLinked ops (new_connection stored) (new_connection-IsLinked stored)

  -- the texts of `n` copies from number `i` on
  abbrev pub console_copies : SaleRecord W → ℕ → ℕ → List Output
  console_copies sale zero i = []
  console_copies sale (suc n) i =
      on_console (build_ticket_buffer f i sale) ∷ console_copies sale n (suc i)

  -- the receipts of `n` copies from number `i` on, at a port
  abbrev pub port_copies : PartialConfig → SaleRecord W → ℕ → ℕ → ℕ → List Output
  port_copies cfg sale p zero i = []
  port_copies cfg sale p (suc n) i =
      sent p (build_esc_pos_buffer f i cfg sale) ∷ port_copies cfg sale p n (suc i)

  module _ (cfg : PartialConfig) (sale : SaleRecord W) (answers : ℕ → Answers) where
    print_copies-dead :
        (n i p : ℕ) (c : Connection)
        → c.is_connected ≡ true
        → c.writer ≡ some p
        → ((j : ℕ) → (answers j).writes ≡ false)
        → print_copies f cfg sale answers n i c ≡ (c, console_copies sale n i)
    unfolding print_copies print_esc_pos connection_for write_or
    print_copies-dead zero i p c live has_writer fails = refl
    print_copies-dead (suc n) i p c live has_writer fails =
        let rest = print_copies-dead n (suc i) p c live has_writer fails in
        simp (live, has_writer, fails, rest)

    print_copies-live :
        (n i p : ℕ) (c : Connection)
        → c.is_connected ≡ true
        → c.writer ≡ some p
        → ((j : ℕ) → (answers j).writes ≡ true)
        → print_copies f cfg sale answers n i c ≡ (c, port_copies cfg sale p n i)
    unfolding print_copies print_esc_pos connection_for write_or
    print_copies-live zero i p c live has_writer works = refl
    print_copies-live (suc n) i p c live has_writer works =
        let rest = print_copies-live n (suc i) p c live has_writer works in
        simp (live, has_writer, works, rest)

    -- When all writes to a connected printer succeed, `printAll` writes the receipts of all copies to
    -- its port; when all fail, all copies go to the console. The connection is kept in both cases: a
    -- printer that no longer takes data still counts as connected.
    pub print_all-connected :
        (writes : Bool) (p : ℕ) (c : Connection)
        → c.is_connected ≡ true
        → c.writer ≡ some p
        → ((j : ℕ) → (answers j).writes ≡ writes)
        → print_all f cfg sale answers c ≡ (
          c,
          if writes
              then port_copies cfg sale p (get_or cfg.copies 1) 1
              else console_copies sale (get_or cfg.copies 1) 1,
        )
    unfolding print_all
    print_all-connected true p c live has_writer h =
        print_copies-live (get_or cfg.copies 1) 1 p c live has_writer h
    print_all-connected false p c live has_writer h =
        print_copies-dead (get_or cfg.copies 1) 1 p c live has_writer h
