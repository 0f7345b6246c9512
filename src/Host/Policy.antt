-- ===== src/Host/Policy.antt =====
-- usb-wasi-host/src/main.rs: `USBDeviceIdentifier` with its parser, `AllowedUSBDevices`, and the
-- policy that `main` builds from the command line. A text is the list of its bytes.
pub mod Parsing
pub mod Filter
mod Tests
use masters_sibren_wieme.Prelude.{
  ℕ, ◌+◌, ◌-◌, ◌*◌, ◌^◌, Bool, true, false, not, ◌&&◌, ◌||◌, Option, none, some, List, [], ◌∷◌, ltb,
  leb, ◌==◌, if◌then◌else◌,
}

pub record UsbDeviceIdentifier : Type 0 where
  pub vendor_id : ℕ  -- u16
  pub product_id : ℕ  -- u16

-- The three messages of `from_str`.
pub data ParseError : Type 0 where
  invalid_format invalid_vendor_id invalid_product_id : ParseError

pub data Parsed (A : Type 0) : Type 0 where
  ok : A → Parsed A
  err : ParseError → Parsed A

-- `str::split`: the text up to each separator, then the rest.
push_front : ℕ → List (List ℕ) → List (List ℕ)
push_front x [] = (x ∷ []) ∷ []
push_front x (part ∷ parts) = (x ∷ part) ∷ parts

pub split : ℕ → List ℕ → List (List ℕ)
unfolding push_front
split sep [] = [] ∷ []
split sep (x ∷ xs) = let rest = split sep xs in if x == sep then [] ∷ rest else push_front x rest

-- `char::to_digit(16)`
pub hex_digit : ℕ → Option ℕ
hex_digit c =
    if leb b'0' c && leb c b'9'
    then some (c - b'0')
    else if leb b'a' c && leb c b'f'
    then some (c - b'a' + 10)
    else if leb b'A' c && leb c b'F'
    then some (c - b'A' + 10)
    else none

-- The digits of `u16::from_str_radix`, with its checked multiplication and addition.
digits_u16 : ℕ → List ℕ → Option ℕ
digits_u16 acc [] = some acc
digits_u16 acc (c ∷ cs) = elim (hex_digit c) [
  | none ↦ none
  | some d ↦ if ltb (acc * 16 + d) (2 ^ 16) then digits_u16 (acc * 16 + d) cs else none
]

-- `u16::from_str_radix(s, 16)`: no text, or a lone sign, is an error; one leading `+` is skipped.
pub from_str_radix : List ℕ → Option ℕ
from_str_radix [] = none
from_str_radix (c ∷ []) = if c == b'+' || c == b'-' then none else digits_u16 0 (c ∷ [])
from_str_radix (c ∷ d ∷ cs) = if c == b'+' then digits_u16 0 (d ∷ cs) else digits_u16 0 (c ∷ d ∷ cs)

pub from_parts : List (List ℕ) → Parsed UsbDeviceIdentifier
from_parts (vendor ∷ product ∷ []) = elim (from_str_radix vendor) [
  | none ↦ err invalid_vendor_id
  | some v ↦ elim (from_str_radix product) [
    | none ↦ err invalid_product_id
    | some p ↦ ok (record { vendor_id = v; product_id = p })
  ]
]
from_parts _ = err invalid_format

-- `USBDeviceIdentifier::from_str`
pub from_str : List ℕ → Parsed UsbDeviceIdentifier
unfolding from_parts split
from_str s = from_parts (split b':' s)

pub data AllowedUsbDevices : Type 0 where
  allowed : List UsbDeviceIdentifier → AllowedUsbDevices
  denied : List UsbDeviceIdentifier → AllowedUsbDevices

-- The derived `PartialEq`.
unfoldable pub same_device : UsbDeviceIdentifier → UsbDeviceIdentifier → Bool
same_device a b = a.vendor_id == b.vendor_id && a.product_id == b.product_id

unfoldable pub contains : List UsbDeviceIdentifier → UsbDeviceIdentifier → Bool
unfolding same_device
contains [] device = false
contains (d ∷ ds) device = same_device d device || contains ds device

unfoldable pub is_allowed : AllowedUsbDevices → UsbDeviceIdentifier → Bool
is_allowed (allowed devices) device = contains devices device
is_allowed (denied devices) device = not (contains devices device)

-- The policy of the command line: `--use-allow-list`, and the devices given with `-d`.
pub policy_of_cli : Bool → List UsbDeviceIdentifier → AllowedUsbDevices
policy_of_cli use_allow_list usb_devices =
    if use_allow_list then allowed usb_devices else denied usb_devices
