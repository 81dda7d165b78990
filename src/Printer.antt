-- ===== src/Printer.antt =====
-- frontend/src/services/ThermalPrinterService.ts and frontend/src/store/usePrinterStore.ts: the
-- receipt of a sale on a thermal printer. A text is the list of its UTF-16 code units. How a number,
-- a price or a date is written is the record `Format`.
pub mod Layout
pub mod Commands
pub mod Receipt
pub mod Preview
pub mod Port
pub mod Printing
pub mod Lifecycle
pub mod Cancelled
use Prim.Native.String.{String}
use Prim.Native.Char.{code}
use blend_pos.Prelude.{
  ℕ, ◌+◌, ◌-◌, ◌/◌, ◌%◌, Option, none, List, [], ◌∷◌, Bool, true, ltb, if◌then◌else◌, get_or, ℤ,
}

abbrev pub Text : Type 0
Text = List ℕ

-- the code units of a code point
abbrev pub with_units : ℕ → Text → Text
with_units c rest =
    if ltb c 0x10000
    then c ∷ rest
    else (0xd800 + (c - 0x10000) / 0x400) ∷ (0xdc00 + (c - 0x10000) % 0x400) ∷ rest

abbrev pub units : String → Text
units String.[] = []
units (String.◌∷◌ c s) = with_units (code c) (units s)

pub data PaperWidth : Type 0 where
  w32 w48 : PaperWidth

pub data CodePage : Type 0 where
  pc437 pc850 pc858 : CodePage

pub record PrinterConfig : Type 0 where
  pub store_name : Text
  pub store_subtitle : Text
  pub store_address : Text
  pub store_phone : Text
  pub store_footer : Text
  pub paper_width : PaperWidth
  pub baud_rate : ℕ
  pub copies : ℕ
  pub open_drawer : Bool
  pub code_page : CodePage

-- `Partial<PrinterConfig>`
pub record PartialConfig : Type 0 where
  pub store_name : Option Text
  pub store_subtitle : Option Text
  pub store_address : Option Text
  pub store_phone : Option Text
  pub store_footer : Option Text
  pub paper_width : Option PaperWidth
  pub baud_rate : Option ℕ
  pub copies : Option ℕ
  pub open_drawer : Option Bool
  pub code_page : Option CodePage

-- what `Intl.NumberFormat`, template literals and `toLocale…String` write
pub record Format (W : Type 0) : Type 0 where
  pub price : W → Text
  pub number : W → Text
  pub integer : ℤ → Text
  pub date : ℕ → Text
  pub time : ℕ → Text
  pub sale_id : ℕ → Text

unfoldable pub default_config : PrinterConfig
default_config = record {
  store_name = units "BLEND POS";
  store_subtitle = units "Sistema de Punto de Venta";
  store_address = [];
  store_phone = [];
  store_footer = units "¡Gracias por su compra!";
  paper_width = w32;
  baud_rate = 9600;
  copies = 1;
  open_drawer = true;
  code_page = pc850;
}

-- `{ ...s.config, ...partial }`
unfoldable pub set_config : PartialConfig → PrinterConfig → PrinterConfig
set_config p c = record {
  store_name = get_or p.store_name c.store_name;
  store_subtitle = get_or p.store_subtitle c.store_subtitle;
  store_address = get_or p.store_address c.store_address;
  store_phone = get_or p.store_phone c.store_phone;
  store_footer = get_or p.store_footer c.store_footer;
  paper_width = get_or p.paper_width c.paper_width;
  baud_rate = get_or p.baud_rate c.baud_rate;
  copies = get_or p.copies c.copies;
  open_drawer = get_or p.open_drawer c.open_drawer;
  code_page = get_or p.code_page c.code_page;
}

-- the store's `reset`
unfoldable pub reset_config : PrinterConfig → PrinterConfig
reset_config _ = default_config
