-- ===== src/Printer/Receipt/Cut.antt =====
-- What a printer does with the receipt of frontend/src/services/ThermalPrinterService.ts when no text
-- on it holds a control character.
use mathlib.Core.List.{append_assoc}
use blend_pos.Prelude.{
  ℕ, zero, suc, pos, sym, ◌≡◌, refl, ap, ◌∙◌, List, [], ◌∷◌, ◌++◌, ltb, if◌then◌else◌, get_or,
  arith, All, All-append, All-imp, Bool-cases, inl, inr,
}
use blend_pos.Number.{Number}
use blend_pos.Sale.{SaleRecord}
use blend_pos.Printer.{Text, units, PartialConfig, Format, default_config, w32}
use blend_pos.Printer.Commands.{
  Command, initialise, select_page, align, bold, dbl, line, feed, cut, drawer, render,
}
use blend_pos.Printer.Commands.Reading.{
  PrinterEvent, reset_printer, set, printed, cut_paper, pulse, read_from, ready, blank_lines,
  meaning, meanings, IsPlain, IsPlainCommand, read_from-render,
}
use blend_pos.Printer.Receipt.Plain.{
  plain_append, repeat-IsPlain, left_right-IsPlain, remove_first-IsPlain, IsPlainFormat,
  all_item_lines-IsPlain, reduction_lines-IsPlain, payment_lines-IsPlain,
}
use blend_pos.Printer.Receipt.{
  chars, line_if, all_item_lines, reduction_lines, payment_lines, copy_text, copy_commands,
  head_sections, lines_of, flatten, body_sections, foot_commands, final_commands, receipt,
  build_esc_pos_buffer,
}

-- a command that prints or sets the next text, plainly
abbrev IsInk : Command → Type 0
IsInk (line text) = IsPlain text
IsInk initialise = Unit
IsInk (select_page _) = Unit
IsInk (align _) = Unit
IsInk (bold _) = Unit
IsInk (dbl _) = Unit
IsInk (feed _) = Unit
IsInk cut = ⊥
IsInk drawer = ⊥

-- an event that neither cuts the paper nor opens the drawer
abbrev pub IsPrinting : PrinterEvent → Type 0
IsPrinting reset_printer = Unit
IsPrinting (set _ _) = Unit
IsPrinting (printed _) = Unit
IsPrinting (cut_paper _) = ⊥
IsPrinting (pulse _ _ _) = ⊥

IsInk-IsPlainCommand : (c : Command) → IsInk c → IsPlainCommand c
IsInk-IsPlainCommand (line text) h = h
IsInk-IsPlainCommand initialise h = tt
IsInk-IsPlainCommand (select_page _) h = tt
IsInk-IsPlainCommand (align _) h = tt
IsInk-IsPlainCommand (bold _) h = tt
IsInk-IsPlainCommand (dbl _) h = tt
IsInk-IsPlainCommand (feed _) h = tt
IsInk-IsPlainCommand cut h = tt
IsInk-IsPlainCommand drawer h = tt

blank_lines-IsPrinting : (n : ℕ) → All IsPrinting (blank_lines n)
unfolding blank_lines
blank_lines-IsPrinting zero = tt
blank_lines-IsPrinting (suc n) = (tt, blank_lines-IsPrinting n)

meaning-IsPrinting : (c : Command) → IsInk c → All IsPrinting (meaning c)
unfolding meaning
meaning-IsPrinting (line text) h = (tt, tt)
meaning-IsPrinting initialise h = (tt, tt)
meaning-IsPrinting (select_page _) h = (tt, tt)
meaning-IsPrinting (align _) h = (tt, tt)
meaning-IsPrinting (bold _) h = (tt, tt)
meaning-IsPrinting (dbl _) h = (tt, tt)
meaning-IsPrinting (feed n) h = blank_lines-IsPrinting n
meaning-IsPrinting cut h = elim h [ ]
meaning-IsPrinting drawer h = elim h [ ]

meanings-IsPrinting : (cs : List Command) → All IsInk cs → All IsPrinting (meanings cs)
unfolding meanings
meanings-IsPrinting [] h = tt
meanings-IsPrinting (c ∷ cs) (h, hs) =
    All-append IsPrinting (meaning c) (meanings cs) (meaning-IsPrinting c h)
      (meanings-IsPrinting cs hs)

meanings-append : (xs ys : List Command) → meanings (xs ++ ys) ≡ meanings xs ++ meanings ys
unfolding meanings
meanings-append [] ys = refl
meanings-append (x ∷ xs) ys = rw (meanings-append xs ys) (sym_assoc x xs ys)
  where
    sym_assoc :
        (x : Command) (xs ys : List Command)
        → meaning x ++ (meanings xs ++ meanings ys) ≡ (meaning x ++ meanings xs) ++ meanings ys
    sym_assoc x xs ys = simp append_assoc

lines_of-IsInk : (ts : List Text) → All IsPlain ts → All IsInk (lines_of ts)
unfolding lines_of
lines_of-IsInk [] h = tt
lines_of-IsInk (t ∷ ts) (h, hs) = (h, lines_of-IsInk ts hs)

line_if-IsInk : (before t : Text) → IsPlain before → IsPlain t → All IsInk (line_if before t)
unfolding line_if
line_if-IsInk before [] hb h = tt
line_if-IsInk before (c ∷ cs) hb h = (plain_append before (c ∷ cs) hb h, tt)

-- The texts that the shop chose hold no control character.
pub record IsPlainConfig (c : PartialConfig) : Type 0 where
  pub name : IsPlain (get_or c.store_name default_config.store_name)
  pub subtitle : IsPlain (get_or c.store_subtitle default_config.store_subtitle)
  pub address : IsPlain (get_or c.store_address [])
  pub phone : IsPlain (get_or c.store_phone [])
  pub footer : IsPlain (get_or c.store_footer default_config.store_footer)

-- The texts of the sale hold no control character.
pub record IsPlainSale {W : Type 0} (s : SaleRecord W) : Type 0 where
  pub cajero : IsPlain (units s.cajero)
  pub names : All (λ item. IsPlain (units item.nombre)) s.items

flatten-IsInk : (css : List (List Command)) → All (All IsInk) css → All IsInk (flatten css)
unfolding flatten
flatten-IsInk [] h = tt
flatten-IsInk (cs ∷ css) (h, hs) = All-append IsInk cs (flatten css) h (flatten-IsInk css hs)

foot_commands-IsInk :
    (w : ℕ) (cfg : PartialConfig) → IsPlainConfig cfg → All IsInk (foot_commands w cfg)
unfolding foot_commands
foot_commands-IsInk w cfg c = (
  repeat-IsPlain 0x2d w (omega arith),
  (tt, (tt, (c.footer, (omega arith, (tt, (repeat-IsPlain 0x3d _ (omega arith), (tt, tt))))))),
)

module _ {W : Type 0} ⦃d : Number W⦄ (f : Format W) (p : IsPlainFormat W f) where
  copy_commands-IsInk : (copy : ℕ) → All IsInk (copy_commands f copy)
  unfolding copy_commands copy_text
  copy_commands-IsInk copy = elim (Bool-cases (ltb 1 copy)) [
    | inl more ↦ rw more (
      tt,
      (
        plain_append (units "[ COPIA ") _ (omega arith)
            (plain_append _ (units " ]") (p.integer (pos copy)) (omega arith)),
        (tt, tt),
      ),
    )
    | inr first ↦ rw first tt
  ]

  head_sections-IsInk :
      (w copy : ℕ) (cfg : PartialConfig) (sale : SaleRecord W)
      → IsPlainConfig cfg
      → IsPlainSale sale
      → All (All IsInk) (head_sections f w copy cfg sale)
  unfolding head_sections
  head_sections-IsInk w copy cfg sale c h = (
    (tt, (tt, (tt, (tt, (tt, (tt, (c.name, (tt, (tt, tt))))))))),
    (
      line_if-IsInk [] _ tt c.subtitle,
      (
        line_if-IsInk [] _ tt c.address,
        (
          line_if-IsInk (units "Tel: ") _ (omega arith) c.phone,
          (
            (
              repeat-IsPlain 0x2d w (omega arith),
              (
                tt,
                (
                  left_right-IsPlain _ _ w (omega arith) (p.date sale.fecha),
                  (
                    left_right-IsPlain _ _ w (omega arith) (p.time sale.fecha),
                    (
                      left_right-IsPlain _ _ w (omega arith) h.cajero,
                      (
                        left_right-IsPlain _ _ w (omega arith) (
                            remove_first-IsPlain (units "SALE-") _
                              (remove_first-IsPlain (units "T-") _ (p.sale_id sale.id))),
                        tt,
                      ),
                    ),
                  ),
                ),
              ),
            ),
            (copy_commands-IsInk copy, ((repeat-IsPlain 0x3d w (omega arith), tt), tt)),
          ),
        ),
      ),
    ),
  )

  body_sections-IsInk :
      (w : ℕ) (sale : SaleRecord W) → IsPlainSale sale → All (All IsInk) (body_sections f w sale)
  unfolding body_sections
  body_sections-IsInk w sale h = (
    (tt, (tt, (omega arith, (tt, (tt, (repeat-IsPlain 0x2d w (omega arith), tt)))))),
    (
      lines_of-IsInk (all_item_lines f w sale.items)
          (all_item_lines-IsPlain f p w sale.items h.names),
      (
        (repeat-IsPlain 0x2d w (omega arith), tt),
        (
          lines_of-IsInk (reduction_lines f w sale) (reduction_lines-IsPlain f p w sale),
          (
            (
              tt,
              (
                tt,
                (
                  left_right-IsPlain _ _ w (omega arith) (p.price sale.total_con_descuento),
                  (tt, (tt, (repeat-IsPlain 0x3d w (omega arith), tt))),
                ),
              ),
            ),
            (lines_of-IsInk (payment_lines f w sale) (payment_lines-IsPlain f p w sale), tt),
          ),
        ),
      ),
    ),
  )

  -- everything before the cut
  abbrev pub inked : ℕ → PartialConfig → SaleRecord W → List Command
  inked copy cfg sale =
      let w = chars (get_or cfg.paper_width w32) in
      flatten (head_sections f w copy cfg sale)
      ++ (flatten (body_sections f w sale) ++ foot_commands w cfg)

  inked-IsInk :
      (copy : ℕ) (cfg : PartialConfig) (sale : SaleRecord W)
      → IsPlainConfig cfg
      → IsPlainSale sale
      → All IsInk (inked copy cfg sale)
  inked-IsInk copy cfg sale c h =
      let w = chars (get_or cfg.paper_width w32) in
      All-append IsInk (flatten (head_sections f w copy cfg sale))
        (flatten (body_sections f w sale) ++ foot_commands w cfg)
        (flatten-IsInk _ (head_sections-IsInk w copy cfg sale c h))
        (All-append IsInk (flatten (body_sections f w sale)) (foot_commands w cfg)
          (flatten-IsInk _ (body_sections-IsInk w sale h)) (foot_commands-IsInk w cfg c))

  receipt-inked :
      (copy : ℕ) (cfg : PartialConfig) (sale : SaleRecord W)
      → receipt f copy cfg sale ≡ inked copy cfg sale ++ final_commands cfg
  unfolding receipt
  receipt-inked copy cfg sale =
      let w = chars (get_or cfg.paper_width w32) in
      let head = flatten (head_sections f w copy cfg sale) in
      let body = flatten (body_sections f w sale) in
      sym (
        append_assoc head (body ++ foot_commands w cfg) (final_commands cfg)
        ∙ ap (λ t. head ++ t) (append_assoc body (foot_commands w cfg) (final_commands cfg)))

  final_commands-IsPlainCommand : (cfg : PartialConfig) → All IsPlainCommand (final_commands cfg)
  unfolding final_commands
  final_commands-IsPlainCommand cfg =
      elim (Bool-cases (get_or cfg.open_drawer default_config.open_drawer)) [
        | inl opened ↦ rw opened (tt, (tt, tt))
        | inr shut ↦ rw shut (tt, tt)
      ]

  meanings-final_commands :
      (cfg : PartialConfig)
      → meanings (final_commands cfg)
        ≡ cut_paper 1
          ∷ (if get_or cfg.open_drawer default_config.open_drawer
              then pulse 0 0x19 0xfa ∷ []
              else [])
  unfolding meanings meaning final_commands
  meanings-final_commands cfg =
      elim (Bool-cases (get_or cfg.open_drawer default_config.open_drawer)) [
        | inl opened ↦ rw opened refl
        | inr shut ↦ rw shut refl
      ]

  -- A printer that reads the bytes of a receipt whose texts hold no control character prints, then
  -- cuts the paper once, then opens the drawer once if the configuration says so and not at all
  -- otherwise, and has nothing left to read or to print.
  pub read_from-build_esc_pos_buffer :
      (copy : ℕ) (cfg : PartialConfig) (sale : SaleRecord W)
      → IsPlainConfig cfg
      → IsPlainSale sale
      → (es : List PrinterEvent) × All IsPrinting es
        × (read_from (ready []) (build_esc_pos_buffer f copy cfg sale)
            ≡ ready (
                es
                ++ (cut_paper 1
                    ∷ (if get_or cfg.open_drawer default_config.open_drawer
                        then pulse 0 0x19 0xfa ∷ []
                        else []))))
  unfolding build_esc_pos_buffer
  read_from-build_esc_pos_buffer copy cfg sale c h =
      let ink = inked-IsInk copy cfg sale c h in
      let plain =
        All-append IsPlainCommand (inked copy cfg sale) (final_commands cfg)
          (All-imp IsInk IsPlainCommand (inked copy cfg sale) IsInk-IsPlainCommand ink)
          (final_commands-IsPlainCommand cfg) in
      (
        meanings (inked copy cfg sale),
        meanings-IsPrinting (inked copy cfg sale) ink,
        ap (λ cs. read_from (ready []) (render cs)) (receipt-inked copy cfg sale)
            ∙ read_from-render [] (inked copy cfg sale ++ final_commands cfg) plain
            ∙ ap ready (
                meanings-append (inked copy cfg sale) (final_commands cfg)
                ∙ ap (λ t. meanings (inked copy cfg sale) ++ t) (meanings-final_commands cfg)),
      )
