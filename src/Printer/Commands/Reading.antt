-- ===== src/Printer/Commands/Reading.antt =====
-- A printer that reads the bytes of frontend/src/services/ThermalPrinterService.ts one by one, and
-- what it does with those that the commands render to.
use blend_pos.Prelude.{
  ℕ, zero, suc, ◌≡◌, refl, sym, ap, ◌∙◌, ◌≤◌, List, [], ◌∷◌, ◌++◌, foldl, Bool, false, ◌==◌,
  if◌then◌else◌, arith, All, ◌&&◌, leb,
}
use mathlib.Core.List.{append_assoc, append-nil}
use blend_pos.Printer.{Text}
use blend_pos.Printer.Commands.{
  Command, initialise, select_page, align, bold, dbl, line, feed, cut, drawer, esc_byte, gs_byte,
  lf_byte, encode_after, encode_text, feed_bytes, drawer_bytes, bytes_of, render, page_number,
  align_number,
}

-- what a printer does when a command is complete
pub data PrinterEvent : Type 0 where
  reset_printer : PrinterEvent
  -- a command letter and its argument
  set : ℕ → ℕ → PrinterEvent
  printed : List ℕ → PrinterEvent
  cut_paper : ℕ → PrinterEvent
  pulse : ℕ → ℕ → ℕ → PrinterEvent

-- where the printer is in a command
pub data Mode : Type 0 where
  text_mode after_esc after_gs : Mode
  argument_of : ℕ → Mode
  cut_argument pulse_pin : Mode
  pulse_on : ℕ → Mode
  pulse_off : ℕ → ℕ → Mode
  lost : Mode

pub record Reader : Type 0 where
  pub mode : Mode
  -- the characters of the line that is not printed yet
  pub pending : List ℕ
  pub events : List PrinterEvent

unfoldable does : PrinterEvent → Reader → Reader
does e r = record r { mode = text_mode; events = r.events ++ (e ∷ []) }

unfoldable in_text : ℕ → Reader → Reader
unfolding does
in_text b r =
    if b == esc_byte
    then record r { mode = after_esc }
    else if b == gs_byte
    then record r { mode = after_gs }
    else if b == lf_byte
    then record (does (printed r.pending) r) { pending = [] }
    else record r { pending = r.pending ++ (b ∷ []) }

unfoldable in_esc : ℕ → Reader → Reader
unfolding does
in_esc b r =
    if b == 0x40
    then does reset_printer r
    else if b == 0x70
    then record r { mode = pulse_pin }
    else if b == 0x74
    then record r { mode = argument_of b }
    else if b == 0x61
    then record r { mode = argument_of b }
    else if b == 0x45
    then record r { mode = argument_of b }
    else if b == 0x21
    then record r { mode = argument_of b }
    else record r { mode = lost }

unfoldable in_mode : Mode → ℕ → Reader → Reader
unfolding in_text in_esc does
in_mode text_mode b r = in_text b r
in_mode after_esc b r = in_esc b r
in_mode after_gs b r = record r { mode = if b == 0x56 then cut_argument else lost }
in_mode (argument_of c) b r = does (set c b) r
in_mode cut_argument b r = does (cut_paper b) r
in_mode pulse_pin b r = record r { mode = pulse_on b }
in_mode (pulse_on pin) b r = record r { mode = pulse_off pin b }
in_mode (pulse_off pin on) b r = does (pulse pin on b) r
in_mode lost b r = r

unfoldable accept : Reader → ℕ → Reader
unfolding in_mode
accept r b = in_mode r.mode b r

unfoldable pub read_from : Reader → List ℕ → Reader
unfolding accept
read_from = foldl accept

-- a printer that has done `es` and waits for text
abbrev pub ready : List PrinterEvent → Reader
ready es = record { mode = text_mode; pending = []; events = es }

unfoldable pub blank_lines : ℕ → List PrinterEvent
blank_lines zero = []
blank_lines (suc n) = printed [] ∷ blank_lines n

-- what a command is meant to do
unfoldable pub meaning : Command → List PrinterEvent
unfolding blank_lines
meaning initialise = reset_printer ∷ []
meaning (select_page p) = set 0x74 (page_number p) ∷ []
meaning (align a) = set 0x61 (align_number a) ∷ []
meaning (bold on) = set 0x45 (if on then 1 else 0) ∷ []
meaning (dbl on) = set 0x21 (if on then 0x30 else 0) ∷ []
meaning (line text) = printed (encode_text text) ∷ []
meaning (feed n) = blank_lines n
meaning cut = cut_paper 1 ∷ []
meaning drawer = pulse 0 0x19 0xfa ∷ []

unfoldable pub meanings : List Command → List PrinterEvent
meanings [] = []
meanings (c ∷ cs) = meaning c ++ meanings cs

-- no control character
abbrev pub IsPlain : Text → Type 0
IsPlain = All (λ c. 0x20 ≤ c)

abbrev pub IsPlainCommand : Command → Type 0
IsPlainCommand (line text) = IsPlain text
IsPlainCommand initialise = Unit
IsPlainCommand (select_page _) = Unit
IsPlainCommand (align _) = Unit
IsPlainCommand (bold _) = Unit
IsPlainCommand (dbl _) = Unit
IsPlainCommand (feed _) = Unit
IsPlainCommand cut = Unit
IsPlainCommand drawer = Unit

encode_after-IsPlain : (h : Bool) (text : Text) → IsPlain text → IsPlain (encode_after h text)
unfolding encode_after
encode_after-IsPlain h [] p = tt
encode_after-IsPlain h (c ∷ cs) (p, ps) =
    let rest = encode_after-IsPlain (leb 0xd800 c && leb c 0xdbff) cs ps in ground arith

read_from-append :
    (r : Reader) (xs ys : List ℕ) → read_from r (xs ++ ys) ≡ read_from (read_from r xs) ys
unfolding read_from
read_from-append r [] ys = refl
read_from-append r (x ∷ xs) ys = read_from-append (accept r x) xs ys

-- the printer in the middle of a line
abbrev writing : List ℕ → List PrinterEvent → Reader
writing start es = record { mode = text_mode; pending = start; events = es }

accept_plain :
    (start : List ℕ) (es : List PrinterEvent) (b : ℕ)
    → 0x20 ≤ b
    → accept (writing start es) b ≡ writing (start ++ (b ∷ [])) es
unfolding accept in_mode in_text
accept_plain start es b h = ground arith

read_text :
    (start text : List ℕ) (es : List PrinterEvent)
    → IsPlain text
    → read_from (writing start es) (text ++ (lf_byte ∷ []))
      ≡ ready (es ++ (printed (start ++ text) ∷ []))
unfolding read_from
read_text start [] es h = unfold accept in_mode in_text does in rw (append-nil start) refl
read_text start (b ∷ bs) es (h, hs) =
    ap (λ r. read_from r (bs ++ (lf_byte ∷ []))) (accept_plain start es b h)
    ∙ read_text (start ++ (b ∷ [])) bs es hs
    ∙ ap (λ t. ready (es ++ (printed t ∷ []))) (append_assoc start (b ∷ []) bs)

read_feed :
    (n : ℕ) (es : List PrinterEvent)
    → read_from (ready es) (feed_bytes n) ≡ ready (es ++ blank_lines n)
unfolding read_from accept in_mode in_text does feed_bytes blank_lines
read_feed zero es = ap ready (sym (append-nil es))
read_feed (suc n) es =
    read_feed n (es ++ (printed [] ∷ []))
    ∙ ap ready (append_assoc es (printed [] ∷ []) (blank_lines n))

read_command :
    (es : List PrinterEvent) (c : Command)
    → IsPlainCommand c
    → read_from (ready es) (bytes_of c) ≡ ready (es ++ meaning c)
unfolding read_from accept in_mode in_text in_esc does bytes_of meaning encode_text drawer_bytes
read_command es initialise h = refl
read_command es (select_page p) h = refl
read_command es (align a) h = refl
read_command es (bold on) h = refl
read_command es (dbl on) h = refl
read_command es (line text) h =
    read_text [] (encode_after false text) es (encode_after-IsPlain false text h)
read_command es (feed n) h = read_feed n es
read_command es cut h = refl
read_command es drawer h = refl

-- A printer that reads the bytes of plain commands does what each of them means, in order, and then
-- waits for text with nothing left over.
pub read_from-render :
    (es : List PrinterEvent) (cs : List Command)
    → All IsPlainCommand cs
    → read_from (ready es) (render cs) ≡ ready (es ++ meanings cs)
unfolding render meanings
read_from-render es [] h = unfold read_from in ap ready (sym (append-nil es))
read_from-render es (c ∷ cs) (h, hs) =
    read_from-append (ready es) (bytes_of c) (render cs)
    ∙ ap (λ r. read_from r (render cs)) (read_command es c h)
    ∙ read_from-render (es ++ meaning c) cs hs
    ∙ ap ready (append_assoc es (meaning c) (meanings cs))
