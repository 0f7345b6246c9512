-- ===== src/Guest/Lsusb.antt =====
-- usb-wasi-guest/examples/lsusb.rs: the fields of a device descriptor, and the loop that prints the
-- descriptors of a configuration. The printed lines are values here, without their text.
pub mod Blocks
mod Fields
mod Tests
use masters_sibren_wieme.Prelude.{
  ℕ, zero, suc, ◌+◌, ◌*◌, Bool, true, false, Option, none, some, List, [], ◌∷◌, ◌++◌, ◌==◌, ltb,
  if◌then◌else◌, length, get_elem?, get_or,
}
use masters_sibren_wieme.Guest.BulkOnly.{◌>>=◌}

abbrev u16_of : ℕ → ℕ → ℕ
u16_of low high = low + 256 * high

pub record DeviceFields : Type 0 where
  pub usb_version : ℕ  -- u16
  pub dev_class : ℕ  -- u8
  pub dev_subclass : ℕ  -- u8
  pub dev_protocol : ℕ  -- u8
  pub max_packet0 : ℕ  -- u8
  pub dev_release : ℕ  -- u16
  pub mfg_idx : ℕ  -- u8
  pub prod_idx : ℕ  -- u8
  pub serial_idx : ℕ  -- u8
  pub num_cfg : ℕ  -- u8
  pub vid : ℕ  -- u16
  pub pid : ℕ  -- u16

-- Of the 18 bytes; `none` for another number of them, which the program reports.
unfoldable pub fields_of : List ℕ → Option DeviceFields
fields_of ddesc =
    if length ddesc == 18
    then some (record {
      usb_version = u16_of (at 2) (at 3);
      dev_class = at 4;
      dev_subclass = at 5;
      dev_protocol = at 6;
      max_packet0 = at 7;
      dev_release = u16_of (at 12) (at 13);
      mfg_idx = at 14;
      prod_idx = at 15;
      serial_idx = at 16;
      num_cfg = at 17;
      vid = u16_of (at 8) (at 9);
      pid = u16_of (at 10) (at 11);
    })
    else none
  where
    at : ℕ → ℕ
    at i = get_or ddesc i 0

pub data Line : Type 0 where
  interface_line : (iface alt epcnt : ℕ) → Line
  endpoint_line : (addr attrs mx interval : ℕ) → Line

-- What the loop has printed when it ends; or it panics, or it has more rounds to do than were given.
pub data Listing : Type 0 where
  printed : List Line → Listing
  panicked unfinished : Listing

abbrev pub preceded : List Line → Listing → Listing
preceded lines (printed rest) = printed (lines ++ rest)
preceded lines panicked = panicked
preceded lines unfinished = unfinished

-- `match dtype`, which indexes the bytes as it goes: `none` is a panic.
unfoldable pub lines_of : List ℕ → ℕ → ℕ → Option (List Line)
lines_of full i dtype =
    if dtype == 4 then interface_at else if dtype == 5 then endpoint_at else some []
  where
    interface_at : Option (List Line)
    interface_at = do
      iface ← get_elem? full (i + 2)
      alt ← get_elem? full (i + 3)
      epcnt ← get_elem? full (i + 4)
      some (interface_line iface alt epcnt ∷ [])

    endpoint_at : Option (List Line)
    endpoint_at = do
      addr ← get_elem? full (i + 2)
      attrs ← get_elem? full (i + 3)
      low ← get_elem? full (i + 4)
      high ← get_elem? full (i + 5)
      interval ← get_elem? full (i + 6)
      some (endpoint_line addr attrs (u16_of low high) interval ∷ [])

abbrev pub shown : Listing → Option (List Line) → Listing
shown rest none = panicked
shown rest (some lines) = preceded lines rest

-- `i += len.max(1)`
abbrev pub step_of : ℕ → ℕ
step_of len = if len == 0 then 1 else len

-- One round at i, with what the later rounds print from an index on. Both indices are inside.
unfoldable pub round_at : (ℕ → Listing) → ℕ → List ℕ → Listing
round_at go i full =
    let len = get_or full i 0 in
    let dtype = get_or full (i + 1) 0 in
    let taken = shown (go (i + step_of len)) (lines_of full i dtype) in
    if ltb (i + 1) (length full)
    then if ltb (length full) (i + len) then printed [] else taken
    else printed []

-- The loop, for a number of rounds.
unfoldable pub walk : ℕ → ℕ → List ℕ → Listing
walk zero i full = unfinished
walk (suc rounds) i full = round_at (λ j. walk rounds j full) i full

-- The loop begins behind the nine bytes of the configuration's own descriptor.
abbrev pub list_configuration : ℕ → List ℕ → Listing
list_configuration rounds full = walk rounds 9 full
