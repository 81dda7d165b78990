-- ===== src/Printer/Preview.antt =====
-- `buildTicketBuffer` of frontend/src/services/ThermalPrinterService.ts: the receipt as plain text, for
-- the console when no printer is connected.
use blend_pos.Prelude.{ℕ, List, [], ◌∷◌, ◌++◌, ltb, if◌then◌else◌}
use blend_pos.Number.{Number}
use blend_pos.Sale.{SaleRecord}
use blend_pos.Printer.{Text, units, Format}
use blend_pos.Printer.Layout.{repeat, center, divider, left_right}
use blend_pos.Printer.Receipt.{
  remove_first, all_item_lines, reduction_lines, payment_lines, copy_text,
}

-- `PAPER_WIDTH`
abbrev pub default_width : ℕ
default_width = 32

-- `lines.join('\n')`
unfoldable pub join_lines : List Text → Text
join_lines [] = []
join_lines (t ∷ []) = t
join_lines (t ∷ u ∷ ts) = t ++ (0x0a ∷ join_lines (u ∷ ts))

module _ {W : Type 0} ⦃d : Number W⦄ (f : Format W) where
  unfoldable pub ticket_lines : ℕ → SaleRecord W → List Text
  unfolding center divider left_right remove_first copy_text all_item_lines reduction_lines
      payment_lines
  ticket_lines copy sale =
      []
      ∷ center (units "★ BLEND POS ★") default_width
      ∷ center (units "Sistema de Punto de Venta") default_width
      ∷ divider 0x2d default_width
      ∷ left_right (units "Fecha:") (f.date sale.fecha) default_width
      ∷ left_right (units "Hora:") (f.time sale.fecha) default_width
      ∷ left_right (units "Cajero:") (units sale.cajero) default_width
      ∷ left_right (units "Ticket N°:") (remove_first (units "SALE-") (f.sale_id sale.id))
          default_width
      ∷ ((if ltb 1 copy then center (copy_text f copy) default_width ∷ [] else [])
          ++ (divider 0x3d default_width
              ∷ center (units "DETALLE DE VENTA") default_width
              ∷ divider 0x2d default_width
              ∷ (all_item_lines f default_width sale.items
                  ++ (divider 0x2d default_width
                      ∷ (reduction_lines f default_width sale
                          ++ (left_right (units "TOTAL:") (f.price sale.total_con_descuento)
                                default_width
                              ∷ divider 0x3d default_width
                              ∷ (payment_lines f default_width sale
                                  ++ (divider 0x2d default_width
                                      ∷ []
                                      ∷ center (units "¡Gracias por su compra!") default_width
                                      ∷ center (units "Conserve su ticket") default_width
                                      ∷ []
                                      ∷ center (repeat 0x3d 16) default_width
                                      ∷ []
                                      ∷ []))))))))

  unfoldable pub build_ticket_buffer : ℕ → SaleRecord W → Text
  unfolding ticket_lines join_lines
  build_ticket_buffer copy sale = join_lines (ticket_lines copy sale)
