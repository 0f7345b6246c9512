-- ===== src/Guest/Maze/Controller.antt =====
-- usb-wasi-guest/examples/ps5-maze/src/lib.rs: the choice of a controller and of its interface, and what its
-- reports say.
use masters_sibren_wieme.Prelude.{
  ℕ, ◌+◌, ◌-◌, ◌*◌, ◌^◌, Bool, true, false, not, ◌&&◌, ◌||◌, Option, none, some, List, [], ◌∷◌,
  get_or, ◌==◌, ltb, if◌then◌else◌, length, has_bit, low_bits,
}
use masters_sibren_wieme.Prelude.Int.{ℤ, pos, negsuc}
use masters_sibren_wieme.Host.Backend.{DeviceDescriptor}
use masters_sibren_wieme.Host.Backend.Descriptors.{EndpointDescriptor, InterfaceDescriptor}

-- `f32`: `lit m k` is the number m / 2^k.
pub record Floats (F : Type 0) : Type 0 where
  pub lit : ℤ → ℕ → F
  pub add : F → F → F
  pub sub : F → F → F
  pub div : F → F → F
  pub less : F → F → Bool

pub record GamepadState (F : Type 0) : Type 0 where
  pub a : Bool
  pub b : Bool
  pub x : Bool
  pub y : Bool
  pub start : Bool
  pub select : Bool
  pub up : Bool
  pub down : Bool
  pub left : Bool
  pub right : Bool
  pub lb : Bool
  pub rb : Bool
  pub lstick : Bool
  pub rstick : Bool
  pub lt : F
  pub rt : F
  pub lstick_x : F
  pub lstick_y : F
  pub rstick_x : F
  pub rstick_y : F

pub data ControllerType : Type 0 where
  xbox ps5 : ControllerType

abbrev pub byte : List ℕ → ℕ → ℕ
byte bytes i = get_or bytes i 0

-- `LittleEndian::read_u16(&data[i..])` and `read_i16`
abbrev pub read_u16 : List ℕ → ℕ → ℕ
read_u16 bytes i = byte bytes i + 256 * byte bytes (i + 1)

abbrev pub read_i16 : List ℕ → ℕ → ℤ
read_i16 bytes i =
    let w = read_u16 bytes i in if ltb w (2 ^ 15) then pos w else negsuc (2 ^ 16 - w - 1)

module _ {F : Type 0} (floats : Floats F) where
  unfoldable pub default_state : GamepadState F
  default_state = record {
    a = false;
    b = false;
    x = false;
    y = false;
    start = false;
    select = false;
    up = false;
    down = false;
    left = false;
    right = false;
    lb = false;
    rb = false;
    lstick = false;
    rstick = false;
    lt = floats.lit (pos 0) 0;
    rt = floats.lit (pos 0) 0;
    lstick_x = floats.lit (pos 0) 0;
    lstick_y = floats.lit (pos 0) 0;
    rstick_x = floats.lit (pos 0) 0;
    rstick_y = floats.lit (pos 0) 0;
  }

  -- `(… as f32 + 0.5) / 32767.5`
  abbrev pub xbox_axis : List ℕ → ℕ → F
  xbox_axis bytes i =
      floats.div (floats.add (floats.lit (read_i16 bytes i) 0) (floats.lit (pos 1) 1))
        (floats.lit (pos 65535) 1)

  unfoldable pub parse_xbox_controller_data : List ℕ → GamepadState F
  parse_xbox_controller_data bytes = if ltb (length bytes) 18 then default_state else record {
    a = has_bit 4 (byte bytes 4);
    b = has_bit 5 (byte bytes 4);
    x = has_bit 6 (byte bytes 4);
    y = has_bit 7 (byte bytes 4);
    start = has_bit 3 (byte bytes 4);
    select = has_bit 2 (byte bytes 4);
    up = has_bit 0 (byte bytes 5);
    down = has_bit 1 (byte bytes 5);
    left = has_bit 2 (byte bytes 5);
    right = has_bit 3 (byte bytes 5);
    lb = has_bit 4 (byte bytes 5);
    rb = has_bit 5 (byte bytes 5);
    lstick = has_bit 6 (byte bytes 5);
    rstick = has_bit 7 (byte bytes 5);
    lt = floats.div (floats.lit (pos (read_u16 bytes 6)) 0) (floats.lit (pos 1023) 0);
    rt = floats.div (floats.lit (pos (read_u16 bytes 8)) 0) (floats.lit (pos 1023) 0);
    lstick_x = xbox_axis bytes 10;
    lstick_y = xbox_axis bytes 12;
    rstick_x = xbox_axis bytes 14;
    rstick_y = xbox_axis bytes 16;
  }

  -- `(… as f32 - 128.0) / 128.0`
  abbrev pub ps5_axis : List ℕ → ℕ → F
  ps5_axis bytes i =
      floats.div (floats.sub (floats.lit (pos (byte bytes i)) 0) (floats.lit (pos 128) 0))
        (floats.lit (pos 128) 0)

  unfoldable pub ps5_state : List ℕ → ℕ → GamepadState F
  ps5_state bytes dpad = record default_state {
    a = has_bit 5 (byte bytes 8);
    b = has_bit 6 (byte bytes 8);
    x = has_bit 4 (byte bytes 8);
    y = has_bit 7 (byte bytes 8);
    up = (dpad == 0) || (dpad == 1) || (dpad == 7);
    right = (dpad == 1) || (dpad == 2) || (dpad == 3);
    down = (dpad == 3) || (dpad == 4) || (dpad == 5);
    left = (dpad == 5) || (dpad == 6) || (dpad == 7);
    lt = floats.div (floats.lit (pos (byte bytes 5)) 0) (floats.lit (pos 255) 0);
    rt = floats.div (floats.lit (pos (byte bytes 6)) 0) (floats.lit (pos 255) 0);
    lstick_x = ps5_axis bytes 1;
    lstick_y = ps5_axis bytes 2;
    rstick_x = ps5_axis bytes 3;
    rstick_y = ps5_axis bytes 4;
  }

  unfoldable pub parse_ps5_controller_data : List ℕ → GamepadState F
  parse_ps5_controller_data bytes =
      if ltb (length bytes) 10
      then default_state
      else if not (byte bytes 0 == 1)
      then default_state
      else ps5_state bytes (low_bits (byte bytes 8) 4)

  abbrev pub parse : ControllerType → List ℕ → GamepadState F
  parse xbox bytes = parse_xbox_controller_data bytes
  parse ps5 bytes = parse_ps5_controller_data bytes

-- The choice of the first supported controller.
unfoldable pub choose_device :
    {R : Type 0} → List (R × DeviceDescriptor) → Option (R × ControllerType)
choose_device [] = none
choose_device ((device, desc) ∷ devices) =
    if (desc.vendor_id == 0x045e) && (desc.product_id == 0x02ea)
    then some (device, xbox)
    else if (desc.vendor_id == 0x054c) && (desc.product_id == 0x0ce6)
    then some (device, ps5)
    else choose_device devices

-- The endpoints and the interface that the loops over the interfaces have found.
pub record Found : Type 0 where
  pub endpoint_in : Option ℕ
  pub endpoint_out : Option ℕ
  pub target_interface : Option ℕ

unfoldable pub find_in : ℕ → List EndpointDescriptor → Found → Found
find_in number [] found = found
find_in number (ep ∷ eps) found = find_in number eps (
    if not (low_bits ep.attributes 2 == 3)
    then found
    else if has_bit 7 ep.endpoint_address
    then record found { endpoint_in = some ep.endpoint_address; target_interface = some number }
    else record found { endpoint_out = some ep.endpoint_address })

abbrev pub is_found : Option ℕ → Bool
is_found none = false
is_found (some number) = true

unfoldable pub find_interrupt : List InterfaceDescriptor → Found → Found
find_interrupt [] found = found
find_interrupt (iface ∷ ifaces) found =
    let found' = find_in iface.interface_number iface.endpoints found in
    if is_found found'.target_interface then found' else find_interrupt ifaces found'
