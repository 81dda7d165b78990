-- ===== src/Tests/PrinterTests.antt =====
-- Receipts, copies and connections at concrete sales, in fixed-point amounts.
use blend_pos.Prelude.{
  ◌≡◌, refl, none, some, List, [], ◌∷◌, ◌++◌, true, false, pos, if◌then◌else◌, get_or, arith, ltb,
  leb,
}
use blend_pos.Prelude.{All}
use blend_pos.Number.{num}
use blend_pos.Number.Fixed.{Fixed, fixed_number}
use blend_pos.Cart.{CartItem, efectivo, debito, mixto}
use blend_pos.Sale.{SaleRecord, ticket_interno}
use blend_pos.Printer.{PartialConfig, Format, units, default_config}
use blend_pos.Printer.Layout.{left_right, trim_left, repeat}
use blend_pos.Printer.Commands.Reading.{PrinterEvent, read_from, ready, cut_paper, pulse}
use blend_pos.Printer.Receipt.{build_esc_pos_buffer}
use blend_pos.Printer.Receipt.Plain.{IsPlainFormat}
use blend_pos.Printer.Receipt.Cut.{
  IsPrinting, IsPlainConfig, IsPlainSale, read_from-build_esc_pos_buffer,
}
use blend_pos.Printer.Receipt.Width.{IsShort}
use blend_pos.Printer.Port.{Answers, Connection, new_connection, connect, IsLinked}
use blend_pos.Printer.Printing.{print_all, AreCopies, print_all-AreCopies}
use blend_pos.Printer.Lifecycle.{
  connects, disconnects, prints, opens_drawer, reloads, run_printer_ops, run_printer_ops-IsLinked,
}
use blend_pos.Printer.Cancelled.{IsBusy}

abbrev plain_format : Format Fixed
plain_format = record {
  price = λ x. if ltb x 10_000 then units "$ 0,50" else units "$ 120,00";
  number = λ _. units "10";
  integer = λ _. units "2";
  date = λ _. units "01/02/2026";
  time = λ _. units "10:30:00";
  sale_id = λ _. units "T-41";
}

plain_format-IsPlain : IsPlainFormat Fixed plain_format
plain_format-IsPlain = record {
  price = λ x. ground arith;
  number = λ _. omega arith;
  integer = λ _. omega arith;
  date = λ _. omega arith;
  time = λ _. omega arith;
  sale_id = λ _. omega arith;
}

plain_format-IsShort : IsShort Fixed plain_format 32
plain_format-IsShort = record { price = λ x. ground arith }

abbrev two_copies : PartialConfig
two_copies = record {
  store_name = some (units "Kiosco Ana");
  store_subtitle = none;
  store_address = none;
  store_phone = some (units "555-0101");
  store_footer = none;
  paper_width = none;
  baud_rate = none;
  copies = some 2;
  open_drawer = none;
  code_page = none;
}

two_copies-IsPlain : IsPlainConfig two_copies
unfolding default_config
two_copies-IsPlain = record {
  name = omega arith;
  subtitle = omega arith;
  address = tt;
  phone = omega arith;
  footer = omega arith;
}

abbrev bread : CartItem Fixed
bread = record {
  id = 7;
  nombre = "Pan lactal de molde, familiar, sin sal";
  precio = num 60;
  codigo_barras = "77";
  cantidad = pos 2;
  subtotal = num 108;
  descuento = num 10;
  promo_descuento = none;
  promo_nombre = none;
}

abbrev bread_sale : SaleRecord Fixed
bread_sale = record {
  id = 41;
  numero_ticket = [];
  fecha = 1000;
  items = bread ∷ [];
  total = num 108;
  total_con_descuento = num 100;
  metodo_pago = mixto;
  pagos = some (
      record { metodo = efectivo; monto = num 60 }
      ∷ record { metodo = debito; monto = num 48 }
      ∷ []);
  efectivo_recibido = none;
  vuelto = some (num 8);
  cajero = "Ana";
  sesion_caja_id = none;
  cliente_email = none;
  tipo_comprobante = ticket_interno;
  cuit_receptor = none;
  tipo_doc_receptor = none;
  nro_doc_receptor = none;
  receptor_nombre = none;
  receptor_domicilio = none;
  descuento_global = none;
}

bread_sale-IsPlain : IsPlainSale bread_sale
bread_sale-IsPlain = record { cajero = omega arith; names = omega arith }

two_columns : left_right (units "Cajero:") (units "Ana") 16 ≡ units "Cajero:      Ana"
unfolding left_right trim_left repeat
two_columns = refl

read_from-build_esc_pos_buffer_example :
    (es : List PrinterEvent) × All IsPrinting es
    × (read_from (ready []) (build_esc_pos_buffer plain_format 2 two_copies bread_sale)
        ≡ ready (
            es
            ++ (cut_paper 1
                ∷ (if get_or two_copies.open_drawer default_config.open_drawer
                    then pulse 0 0x19 0xfa ∷ []
                    else []))))
read_from-build_esc_pos_buffer_example =
    read_from-build_esc_pos_buffer plain_format plain_format-IsPlain 2 two_copies bread_sale
      two_copies-IsPlain bread_sale-IsPlain

abbrev working : Answers
working = record {
  has_serial = true;
  has_get_ports = true;
  authorised = some (5 ∷ []);
  requested = some 5;
  opens = λ _. true;
  info = λ _. some (record { usb_vendor_id = some 1208; usb_product_id = some 514 });
  stores = true;
  releases = true;
  closes = true;
  writes = true;
}

abbrev unplugged : Answers
unplugged = record working { writes = false; closes = false }

abbrev cancelling : Answers
cancelling = record working { requested = none }

abbrev busy : Answers
busy = record working { opens = λ _. false }

abbrev at_port : Connection
at_port = record { port = some 5; writer = some 5; is_connected = true; last_port_info = none }

connects_to_port : (connect working (new_connection none)).0.writer ≡ some 5
unfolding connect new_connection
connects_to_port = refl

print_all-AreCopies_example :
    AreCopies plain_format two_copies bread_sale 2 1
      (print_all plain_format two_copies bread_sale
        (λ i. if leb i 1 then working else unplugged)
        at_port).1
print_all-AreCopies_example =
    print_all-AreCopies plain_format two_copies bread_sale
      (λ i. if leb i 1 then working else unplugged) at_port

run_printer_ops-IsLinked_example : IsLinked (
    run_printer_ops plain_format (new_connection none) (
      connects working
      ∷ prints (λ _. unplugged) two_copies bread_sale
      ∷ disconnects unplugged
      ∷ opens_drawer working
      ∷ reloads
      ∷ []))
run_printer_ops-IsLinked_example = run_printer_ops-IsLinked plain_format none (
    connects working
    ∷ prints (λ _. unplugged) two_copies bread_sale
    ∷ disconnects unplugged
    ∷ opens_drawer working
    ∷ reloads
    ∷ [])

busy-IsBusy : IsBusy busy 5
busy-IsBusy = record { serial = refl; get_ports = refl; one = refl; refuses = refl }
