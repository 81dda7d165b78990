-- ===== src/Printer/Printing.antt =====
-- `printEscPos`, `printAll` and `openCashDrawer` of frontend/src/services/ThermalPrinterService.ts:
-- what reaches the printer and what reaches the console.
use blend_pos.Prelude.{
  ℕ, zero, suc, ◌≡◌, refl, Option, none, some, List, [], ◌∷◌, Bool, true, ◌&&◌, if◌then◌else◌,
  get_or, is_some, Bool-cases, inl, inr, ◌⊎◌,
}
use blend_pos.Number.{Number}
use blend_pos.Sale.{SaleRecord}
use blend_pos.Printer.{Text, PartialConfig, Format}
use blend_pos.Printer.Commands.{drawer_bytes}
use blend_pos.Printer.Receipt.{build_esc_pos_buffer}
use blend_pos.Printer.Preview.{build_ticket_buffer}
use blend_pos.Printer.Port.{Answers, Connection, auto_connect_if_possible}

pub data Output : Type 0 where
  -- bytes that are written to a port
  sent : ℕ → List ℕ → Output
  on_console : Text → Output

-- `writer.write`, with what the console shows when it fails
unfoldable pub write_or : Answers → List ℕ → Text → Option ℕ → Output
write_or a bytes text none = on_console text
write_or a bytes text (some p) = if a.writes then sent p bytes else on_console text

-- the connection that a write uses: the one there is, or one that was opened again
unfoldable pub connection_for : Answers → Connection → Connection × Bool
unfolding auto_connect_if_possible
connection_for a c =
    if c.is_connected && is_some c.writer then (c, true) else auto_connect_if_possible a c

unfoldable pub sent_if : Answers → Option ℕ → Option Output
unfolding drawer_bytes
sent_if a none = none
sent_if a (some p) = if a.writes then some (sent p drawer_bytes) else none

-- `openCashDrawer`, with what it writes
unfoldable pub open_cash_drawer : Answers → Connection → Connection × Option Output
unfolding connection_for sent_if
open_cash_drawer a c =
    let (d, ok) = connection_for a c in (d, if ok then sent_if a d.writer else none)

module _ {W : Type 0} ⦃d : Number W⦄ (f : Format W) (cfg : PartialConfig)
    (sale : SaleRecord W) where
  unfoldable pub print_esc_pos : Answers → ℕ → Connection → Connection × Output
  unfolding connection_for write_or build_esc_pos_buffer build_ticket_buffer
  print_esc_pos a copy c =
      let (e, ok) = connection_for a c in
      let text = build_ticket_buffer f copy sale in
      (
        e,
        if ok
            then write_or a (build_esc_pos_buffer f copy cfg sale) text e.writer
            else on_console text,
      )

  -- the copies from number `i` on
  unfoldable pub print_copies : (ℕ → Answers) → ℕ → ℕ → Connection → Connection × List Output
  unfolding print_esc_pos
  print_copies answers zero i c = (c, [])
  print_copies answers (suc n) i c =
      let (e, out) = print_esc_pos (answers i) i c in
      let (g, outs) = print_copies answers n (suc i) e in (g, out ∷ outs)

  unfoldable pub print_all : (ℕ → Answers) → Connection → Connection × List Output
  unfolding print_copies
  print_all answers c = print_copies answers (get_or cfg.copies 1) 1 c

  -- copy `i`, on paper or on the console
  IsCopy : ℕ → Output → Type 0
  IsCopy i o =
      ((p : ℕ) × (o ≡ sent p (build_esc_pos_buffer f i cfg sale)))
      ⊎ (o ≡ on_console (build_ticket_buffer f i sale))

  -- `n` copies from number `i` on, in order, and nothing else
  pub AreCopies : ℕ → ℕ → List Output → Type 0
  AreCopies zero i outs = outs ≡ []
  AreCopies (suc n) i [] = ⊥
  AreCopies (suc n) i (o ∷ outs) = IsCopy i o × AreCopies n (suc i) outs

  write_or-IsCopy :
      (a : Answers) (i : ℕ) (o : Option ℕ)
      → IsCopy i (write_or a (build_esc_pos_buffer f i cfg sale) (build_ticket_buffer f i sale) o)
  unfolding write_or IsCopy
  write_or-IsCopy a i none = inr refl
  write_or-IsCopy a i (some p) = elim (Bool-cases a.writes) [
    | inl written ↦ rw written (inl (p, refl))
    | inr failed ↦ rw failed (inr refl)
  ]

  print_esc_pos-IsCopy : (a : Answers) (i : ℕ) (c : Connection) → IsCopy i (print_esc_pos a i c).1
  unfolding print_esc_pos
  print_esc_pos-IsCopy a i c = elim (Bool-cases (connection_for a c).1) [
    | inl ok ↦ rw ok (write_or-IsCopy a i _)
    | inr failed ↦ rw failed (unfold IsCopy in inr refl)
  ]

  print_copies-AreCopies :
      (answers : ℕ → Answers) (n i : ℕ) (c : Connection)
      → AreCopies n i (print_copies answers n i c).1
  unfolding print_copies AreCopies
  print_copies-AreCopies answers zero i c = refl
  print_copies-AreCopies answers (suc n) i c = (
    print_esc_pos-IsCopy (answers i) i c,
    print_copies-AreCopies answers n (suc i) (print_esc_pos (answers i) i c).0,
  )

  -- Whatever the browser and the printer answer, `printAll` brings out each copy of the
  -- configuration once and in order, as its receipt on a port or as its text on the console.
  pub print_all-AreCopies :
      (answers : ℕ → Answers) (c : Connection)
      → AreCopies (get_or cfg.copies 1) 1 (print_all answers c).1
  unfolding print_all
  print_all-AreCopies answers c = print_copies-AreCopies answers (get_or cfg.copies 1) 1 c
