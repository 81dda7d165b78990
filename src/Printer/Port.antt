-- ===== src/Printer/Port.antt =====
-- The serial port of frontend/src/services/ThermalPrinterService.ts: opening, finding again and
-- closing it. What the browser answers during one call of an operation is an `Answers`; a port is its
-- number, and a writer is known by its port.
pub mod Linked
use blend_pos.Prelude.{
  ◌≡◌, ℕ, Option, none, some, List, [], ◌∷◌, Bool, true, false, ◌&&◌, ◌||◌, not, ◌==◌,
  if◌then◌else◌, get_or, is_some, find, refl, Bool-cases, inl, inr, arith,
}

pub record PortInfo : Type 0 where
  pub usb_vendor_id : Option ℕ
  pub usb_product_id : Option ℕ

-- the value of 'pos.printer.lastPortInfo': `JSON.parse` fails or gives no object, or gives one whose
-- fields are numbers or are not
pub data StoredPort : Type 0 where
  unreadable : StoredPort
  readable : PortInfo → StoredPort

pub record Answers : Type 0 where
  -- `canUseWebSerial()`, and `getPorts` with its answer
  pub has_serial : Bool
  pub has_get_ports : Bool
  pub authorised : Option (List ℕ)
  -- the port that the user picks in `requestPort`
  pub requested : Option ℕ
  -- which ports `open` opens
  pub opens : ℕ → Bool
  -- `getInfo`
  pub info : ℕ → Option PortInfo
  -- whether `localStorage.setItem`, `releaseLock`, `close` and `write` succeed
  pub stores : Bool
  pub releases : Bool
  pub closes : Bool
  pub writes : Bool

pub record Connection : Type 0 where
  pub port : Option ℕ
  pub writer : Option ℕ
  pub is_connected : Bool
  pub last_port_info : Option StoredPort

-- `new ThermalPrinterService()` on a page whose storage holds `stored`
unfoldable pub new_connection : Option StoredPort → Connection
new_connection stored = record {
  port = none;
  writer = none;
  is_connected = false;
  last_port_info = stored;
}

unfoldable pub get_last_port_info : Connection → Option PortInfo
get_last_port_info c = elim c.last_port_info [
  | none ↦ none
  | some s ↦ elim s [ unreadable ↦ none | readable i ↦ some i ]
]

unfoldable pub set_last_port_info : Answers → Option PortInfo → Connection → Connection
set_last_port_info a none c = record c { last_port_info = none }
set_last_port_info a (some i) c =
    if a.stores then record c { last_port_info = some (readable i) } else c

unfoldable pub open_port : Answers → ℕ → Connection → Connection × Bool
open_port a p c =
    if a.opens p
    then (record c { port = some p; writer = some p; is_connected = true }, true)
    else (record c { port = none; writer = none; is_connected = false }, false)

-- `!!n` of a number that may be undefined
unfoldable pub is_set : Option ℕ → Bool
is_set none = false
is_set (some n) = not (n == 0)

-- `typeof saved === 'number' && found !== saved` is false
unfoldable pub agrees : Option ℕ → Option ℕ → Bool
agrees none found = true
agrees (some n) none = false
agrees (some n) (some m) = m == n

unfoldable pub matches_port : Answers → PortInfo → ℕ → Bool
unfolding agrees
matches_port a saved p = elim (a.info p) [
  | none ↦ false
  | some i ↦
      agrees saved.usb_vendor_id i.usb_vendor_id && agrees saved.usb_product_id i.usb_product_id
]

-- `ports.find(…)`, when an identifier is saved
unfoldable pub saved_candidate : Answers → Option PortInfo → List ℕ → Option ℕ
unfolding is_set matches_port
saved_candidate a none ports = none
saved_candidate a (some i) ports =
    if is_set i.usb_vendor_id || is_set i.usb_product_id
    then find (matches_port a i) ports
    else none

-- the only authorised port, when no port was found
unfoldable pub only_port : Option ℕ → List ℕ → Option ℕ
only_port (some p) ports = some p
only_port none (p ∷ []) = some p
only_port none (p ∷ q ∷ ports) = none
only_port none [] = none

unfoldable pub candidate : Answers → Connection → List ℕ → Option ℕ
unfolding saved_candidate only_port get_last_port_info
candidate a c ports = only_port (saved_candidate a (get_last_port_info c) ports) ports

unfoldable pub try_candidate : Answers → Option ℕ → Connection → Connection × Bool
unfolding open_port
try_candidate a none c = (c, false)
try_candidate a (some p) c = open_port a p c

unfoldable pub auto_connect_if_possible : Answers → Connection → Connection × Bool
unfolding try_candidate candidate
auto_connect_if_possible a c =
    if not (a.has_serial && a.has_get_ports)
    then (c, false)
    else if c.is_connected && is_some c.writer
    then (c, true)
    else try_candidate a (candidate a c (get_or a.authorised [])) c

-- what `connect` stores of a port that it has opened
unfoldable pub remember_port : Answers → Option PortInfo → Connection → Connection
unfolding is_set set_last_port_info
remember_port a none c = c
remember_port a (some i) c =
    if is_set i.usb_vendor_id || is_set i.usb_product_id then set_last_port_info a (some i) c else c

-- `connect` after `requestPort`, which throws when the user picks no port
unfoldable pub connect_to : Answers → Option ℕ → Connection → Connection × Bool
unfolding remember_port open_port
connect_to a none c = (record c { is_connected = false }, false)
connect_to a (some p) c =
    let (opened, ok) = open_port a p c in
    (if ok then remember_port a (a.info p) opened else opened, ok)

unfoldable pub connect : Answers → Connection → Connection × Bool
unfolding connect_to
connect a c = if a.has_serial then connect_to a a.requested c else (c, false)

-- `releaseLock` or `close` may throw: what comes after it in the `try` is skipped
unfoldable pub disconnect : Answers → Connection → Connection
disconnect a c =
    let released =
      if is_some c.writer then record c { writer = if a.releases then none else c.writer } else c in
    record (if (is_some c.writer && not a.releases) || not a.closes
      then released
      else record released { port = none }) { is_connected = false }

-- A connected printer has a writer, and a writer is one of the port that is kept.
pub record IsLinked (c : Connection) : Type 0 where
  pub connected : c.is_connected ≡ true → is_some c.writer ≡ true
  pub writer_of : is_some c.writer ≡ true → c.writer ≡ c.port
