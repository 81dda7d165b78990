-- ===== src/Printer/Commands.antt =====
-- The ESC/POS commands of frontend/src/services/ThermalPrinterService.ts as the bytes that
-- `buildEscPosBuffer` pushes, and a printer that reads them byte by byte.
pub mod Reading
use blend_pos.Prelude.{
  ℕ, zero, suc, List, [], ◌∷◌, ◌++◌, Bool, true, false, ◌&&◌, ltb, leb, ◌==◌, if◌then◌else◌,
}
use blend_pos.Printer.{Text, CodePage, pc437, pc850, pc858}

abbrev pub esc_byte : ℕ
esc_byte = 0x1b

abbrev pub gs_byte : ℕ
gs_byte = 0x1d

abbrev pub lf_byte : ℕ
lf_byte = 0x0a

pub data Align : Type 0 where
  left_side centre right_side : Align

-- One call of a helper of `buildEscPosBuffer`, or a `push` of its own.
pub data Command : Type 0 where
  initialise : Command
  select_page : CodePage → Command
  align : Align → Command
  bold : Bool → Command
  dbl : Bool → Command
  line : Text → Command
  feed : ℕ → Command
  cut : Command
  drawer : Command

abbrev is_high : ℕ → Bool
is_high c = leb 0xd800 c && leb c 0xdbff

abbrev is_low : ℕ → Bool
is_low c = leb 0xdc00 c && leb c 0xdfff

-- `for (const ch of text)` goes by code points: the low half of a pair is passed over
unfoldable pub encode_after : Bool → Text → List ℕ
encode_after after_high [] = []
encode_after after_high (c ∷ cs) =
    let rest = encode_after (is_high c) cs in
    if after_high && is_low c then rest else (if leb c 0xff then c else 0x3f) ∷ rest

unfoldable pub encode_text : Text → List ℕ
encode_text = encode_after false

abbrev pub page_number : CodePage → ℕ
page_number pc437 = 0
page_number pc850 = 2
page_number pc858 = 16

abbrev pub align_number : Align → ℕ
align_number left_side = 0
align_number centre = 1
align_number right_side = 2

unfoldable pub feed_bytes : ℕ → List ℕ
feed_bytes zero = []
feed_bytes (suc n) = lf_byte ∷ feed_bytes n

-- `ESC p 0 25 250`
unfoldable pub drawer_bytes : List ℕ
drawer_bytes = esc_byte ∷ 0x70 ∷ 0x00 ∷ 0x19 ∷ 0xfa ∷ []

unfoldable pub bytes_of : Command → List ℕ
bytes_of initialise = esc_byte ∷ 0x40 ∷ []
bytes_of (select_page p) = esc_byte ∷ 0x74 ∷ page_number p ∷ []
bytes_of (align a) = esc_byte ∷ 0x61 ∷ align_number a ∷ []
bytes_of (bold on) = esc_byte ∷ 0x45 ∷ (if on then 1 else 0) ∷ []
bytes_of (dbl on) = esc_byte ∷ 0x21 ∷ (if on then 0x30 else 0x00) ∷ []
bytes_of (line text) = encode_text text ++ (lf_byte ∷ [])
bytes_of (feed n) = feed_bytes n
bytes_of cut = gs_byte ∷ 0x56 ∷ 0x01 ∷ []
bytes_of drawer = drawer_bytes

unfoldable pub render : List Command → List ℕ
render [] = []
render (c ∷ cs) = bytes_of c ++ render cs
