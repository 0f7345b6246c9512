-- ===== src/Host/Errors.antt =====
-- usb-wasi-host/src/main.rs, `LibusbError::from_raw` and `UsbSpeed::from_raw`: libusb's numbers as
-- the values of the WIT interface.
pub mod Codes
use masters_sibren_wieme.Prelude.{ℕ, ◌==◌, if◌then◌else◌}
use masters_sibren_wieme.Prelude.Int.{ℤ, pos, negsuc}

pub data LibusbError : Type 0 where
  io invalid_param access no_device not_found busy timeout overflow pipe : LibusbError
  interrupted no_mem not_supported other : LibusbError

-- `Result<A, LibusbError>`
pub data Result {ℓ} (A : Type ℓ) : Type ℓ where
  ok : A → Result A
  err : LibusbError → Result A

-- The arms of the match for the number -(n + 1).
from_negative : ℕ → LibusbError
from_negative n =
    if n == 0
    then io
    else if n == 1
    then invalid_param
    else if n == 2
    then access
    else if n == 3
    then no_device
    else if n == 4
    then not_found
    else if n == 5
    then busy
    else if n == 6
    then timeout
    else if n == 7
    then overflow
    else if n == 8
    then pipe
    else if n == 9
    then interrupted
    else if n == 10
    then no_mem
    else if n == 11
    then not_supported
    else if n == 98
    then other
    else other

pub from_raw : ℤ → LibusbError
unfolding from_negative
from_raw (pos n) = other
from_raw (negsuc n) = from_negative n

pub data UsbSpeed : Type 0 where
  unknown low full high super super_plus super_plus_x2 : UsbSpeed

pub speed_from_raw : ℕ → UsbSpeed
speed_from_raw value =
    if value == 0
    then unknown
    else if value == 1
    then low
    else if value == 2
    then full
    else if value == 3
    then high
    else if value == 4
    then super
    else if value == 5
    then super_plus
    else if value == 6
    then super_plus_x2
    else unknown
