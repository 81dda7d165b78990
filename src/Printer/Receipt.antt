-- ===== src/Printer/Receipt.antt =====
-- `buildEscPosBuffer` of frontend/src/services/ThermalPrinterService.ts: the receipt of a sale as
-- commands, and as bytes.
pub mod Plain
pub mod Cut
pub mod Width
use Prim.Native.Nat.{min}
use blend_pos.Prelude.{
  ℕ, List, [], ◌∷◌, ◌++◌, Option, none, some, Bool, true, false, ltb, ◌==◌, if◌then◌else◌, get_or,
  ℤ, pos, length,
}
use blend_pos.Number.{Number, num}
use blend_pos.Cart.{
  CartItem, MetodoPago, MetodoSimple, simple, mixto, efectivo, debito, credito, qr, transferencia,
  PagoDetalle,
}
use blend_pos.Sale.{SaleRecord}
use blend_pos.Printer.{
  Text, units, PaperWidth, w32, w48, CodePage, PartialConfig, PrinterConfig, Format, default_config,
}
use blend_pos.Printer.Layout.{repeat, left_right, fit_name}
use blend_pos.Printer.Commands.{
  Command, initialise, select_page, align, bold, dbl, line, feed, cut, drawer, left_side, centre,
  render,
}

abbrev pub chars : PaperWidth → ℕ
chars w32 = 32
chars w48 = 48

-- `metodoLabel`
unfoldable pub metodo_label : MetodoSimple → Text
metodo_label efectivo = units "Efectivo"
metodo_label debito = units "Tarjeta Débito"
metodo_label credito = units "Tarjeta Crédito"
metodo_label qr = units "QR"
metodo_label transferencia = units "Transferencia"

unfoldable pub metodo_pago_label : MetodoPago → Text
unfolding metodo_label
metodo_pago_label (simple m) = metodo_label m
metodo_pago_label mixto = units "Mixto"

-- does a text begin with another one
unfoldable pub starts_with : Text → Text → Bool
starts_with [] text = true
starts_with (p ∷ ps) [] = false
starts_with (p ∷ ps) (c ∷ cs) = let rest = starts_with ps cs in if p == c then rest else false

unfoldable pub drop_text : ℕ → Text → Text
drop_text n [] = []
drop_text ℕ.zero (c ∷ cs) = c ∷ cs
drop_text (ℕ.suc n) (c ∷ cs) = drop_text n cs

-- `text.replace(pattern, '')`: without the first occurrence
unfoldable pub remove_first : Text → Text → Text
unfolding starts_with drop_text
remove_first pattern [] = []
remove_first pattern (c ∷ cs) =
    let rest = remove_first pattern cs in
    if starts_with pattern (c ∷ cs) then drop_text (length pattern) (c ∷ cs) else c ∷ rest

-- `if (text) line(text)`
unfoldable pub line_if : Text → Text → List Command
line_if before [] = []
line_if before (c ∷ cs) = line (before ++ (c ∷ cs)) ∷ []

unfoldable pub lines_of : List Text → List Command
lines_of [] = []
lines_of (t ∷ ts) = line t ∷ lines_of ts

unfoldable pub flatten : List (List Command) → List Command
flatten [] = []
flatten (cs ∷ css) = cs ++ flatten css

unfoldable pub foot_commands : ℕ → PartialConfig → List Command
unfolding default_config
foot_commands w cfg =
    line (repeat 0x2d w)
    ∷ feed 1
    ∷ align centre
    ∷ line (get_or cfg.store_footer default_config.store_footer)
    ∷ line (units "Conserve su ticket")
    ∷ feed 1
    ∷ line (repeat 0x3d (min 16 w))
    ∷ feed 4
    ∷ []

unfoldable pub final_commands : PartialConfig → List Command
unfolding default_config
final_commands cfg =
    cut ∷ (if get_or cfg.open_drawer default_config.open_drawer then drawer ∷ [] else [])

module _ {W : Type 0} ⦃d : Number W⦄ (f : Format W) where
  -- `(promoDescuento ?? 0 > 0)`, which reads `promoDescuento ?? (0 > 0)`
  unfoldable pub shown_promo : Option W → Option (Text × W)
  shown_promo none = none
  shown_promo (some pct) = if d.truthy pct then some (units "  Dto.promo ", pct) else none

  -- the percentage that is shown, and the words before it
  unfoldable pub shown_discount : CartItem W → Option (Text × W)
  unfolding shown_promo
  shown_discount item =
      if d.lt (num 0) item.descuento
      then some (units "  Dto. ", item.descuento)
      else shown_promo item.promo_descuento

  -- `- ${formatPrice(precio * cantidad * (pct / 100))}`
  unfoldable pub discount_text : CartItem W → W → Text
  discount_text item pct =
      units "- " ++ f.price (d.mul (d.mul item.precio (d.of_ℤ item.cantidad)) (d.div pct (num 100)))

  unfoldable pub shown_line : CartItem W → ℕ → Option (Text × W) → List Text
  unfolding discount_text
  shown_line item w none = []
  shown_line item w (some (before, pct)) =
      left_right (before ++ (f.number pct ++ units "%")) (discount_text item pct) w ∷ []

  unfoldable pub discount_lines : CartItem W → ℕ → List Text
  unfolding shown_discount shown_line
  discount_lines item w = shown_line item w (shown_discount item)

  unfoldable pub item_lines : ℕ → CartItem W → List Text
  unfolding discount_lines
  item_lines w item =
      fit_name (units item.nombre) w
      ∷ left_right (f.integer item.cantidad ++ (units " x " ++ f.price item.precio))
          (f.price item.subtotal) w
      ∷ discount_lines item w

  unfoldable pub all_item_lines : ℕ → List (CartItem W) → List Text
  unfolding item_lines
  all_item_lines w [] = []
  all_item_lines w (item ∷ items) = item_lines w item ++ all_item_lines w items

  -- the subtotal and the discount, when the total was reduced
  unfoldable pub reduction_lines : ℕ → SaleRecord W → List Text
  reduction_lines w sale =
      if d.lt sale.total_con_descuento sale.total
      then left_right (units "Subtotal:") (f.price sale.total) w
        ∷ left_right (units "Descuento:")
            (units "- " ++ f.price (d.sub sale.total sale.total_con_descuento)) w
        ∷ repeat 0x2d w
        ∷ []
      else []

  unfoldable pub pago_lines : ℕ → List (PagoDetalle W) → List Text
  unfolding metodo_label
  pago_lines w [] = []
  pago_lines w (p ∷ ps) =
      left_right (units "  " ++ (metodo_label p.metodo ++ units ":")) (f.price p.monto) w
      ∷ pago_lines w ps

  unfoldable pub vuelto_lines : ℕ → Option W → List Text
  vuelto_lines w none = []
  vuelto_lines w (some v) =
      if d.lt (num 0) v then left_right (units "  Vuelto:") (f.price v) w ∷ [] else []

  -- the parts of a mixed payment
  unfoldable pub breakdown_lines :
      ℕ → MetodoPago → Option (List (PagoDetalle W)) → Option W → List Text
  unfolding pago_lines vuelto_lines
  breakdown_lines w mixto (some (p ∷ ps)) vuelto = pago_lines w (p ∷ ps) ++ vuelto_lines w vuelto
  breakdown_lines w mixto (some []) vuelto = []
  breakdown_lines w mixto none vuelto = []
  breakdown_lines w (simple m) pagos vuelto = []

  unfoldable pub payment_lines : ℕ → SaleRecord W → List Text
  unfolding breakdown_lines metodo_pago_label
  payment_lines w sale =
      left_right (units "Forma de pago:") (metodo_pago_label sale.metodo_pago) w
      ∷ breakdown_lines w sale.metodo_pago sale.pagos sale.vuelto

  unfoldable pub copy_text : ℕ → Text
  copy_text copy = units "[ COPIA " ++ (f.integer (pos copy) ++ units " ]")

  unfoldable pub copy_commands : ℕ → List Command
  unfolding copy_text
  copy_commands copy =
      if ltb 1 copy then align centre ∷ line (copy_text copy) ∷ align left_side ∷ [] else []

  -- up to the line of `=` above the items
  unfoldable pub head_sections : ℕ → ℕ → PartialConfig → SaleRecord W → List (List Command)
  unfolding default_config line_if remove_first copy_commands
  head_sections w copy cfg sale =
      (initialise
        ∷ select_page (get_or cfg.code_page default_config.code_page)
        ∷ feed 1
        ∷ align centre
        ∷ dbl true
        ∷ bold true
        ∷ line (get_or cfg.store_name default_config.store_name)
        ∷ dbl false
        ∷ bold false
        ∷ [])
      ∷ line_if [] (get_or cfg.store_subtitle default_config.store_subtitle)
      ∷ line_if [] (get_or cfg.store_address [])
      ∷ line_if (units "Tel: ") (get_or cfg.store_phone [])
      ∷ (line (repeat 0x2d w)
          ∷ align left_side
          ∷ line (left_right (units "Fecha:") (f.date sale.fecha) w)
          ∷ line (left_right (units "Hora:") (f.time sale.fecha) w)
          ∷ line (left_right (units "Cajero:") (units sale.cajero) w)
          ∷ line (
              left_right (units "Ticket N°:")
                (remove_first (units "SALE-") (remove_first (units "T-") (f.sale_id sale.id))) w)
          ∷ [])
      ∷ copy_commands copy
      ∷ (line (repeat 0x3d w) ∷ [])
      ∷ []

  unfoldable pub body_sections : ℕ → SaleRecord W → List (List Command)
  unfolding all_item_lines reduction_lines payment_lines lines_of
  body_sections w sale =
      (align centre
        ∷ bold true
        ∷ line (units "DETALLE DE VENTA")
        ∷ bold false
        ∷ align left_side
        ∷ line (repeat 0x2d w)
        ∷ [])
      ∷ lines_of (all_item_lines w sale.items)
      ∷ (line (repeat 0x2d w) ∷ [])
      ∷ lines_of (reduction_lines w sale)
      ∷ (bold true
          ∷ dbl true
          ∷ line (left_right (units "TOTAL:") (f.price sale.total_con_descuento) w)
          ∷ dbl false
          ∷ bold false
          ∷ line (repeat 0x3d w)
          ∷ [])
      ∷ lines_of (payment_lines w sale)
      ∷ []

  unfoldable pub receipt : ℕ → PartialConfig → SaleRecord W → List Command
  unfolding head_sections body_sections foot_commands final_commands flatten
  receipt copy cfg sale =
      let w = chars (get_or cfg.paper_width w32) in
      flatten (head_sections w copy cfg sale)
      ++ (flatten (body_sections w sale) ++ (foot_commands w cfg ++ final_commands cfg))

  unfoldable pub build_esc_pos_buffer : ℕ → PartialConfig → SaleRecord W → List ℕ
  unfolding receipt
  build_esc_pos_buffer copy cfg sale = render (receipt copy cfg sale)
