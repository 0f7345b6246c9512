-- ===== src/Host/Errors/Codes.antt =====
-- The numbers that libusb documents for its errors, and that the host reads each as its value.
use masters_sibren_wieme.Prelude.{ℕ, ◌≡◌, ◌≢◌, ◌↔◌, refl, ap, arith}
use masters_sibren_wieme.Prelude.Int.{ℤ, pos, negsuc}
use masters_sibren_wieme.Host.Errors.{
  LibusbError, io, invalid_param, access, no_device, not_found, busy, timeout, overflow, pipe,
  interrupted, no_mem, not_supported, other, from_negative, from_raw,
}

-- `LIBUSB_ERROR_IO` and its siblings, as -(n + 1).
abbrev pub code_of : LibusbError → ℕ
code_of io = 0
code_of invalid_param = 1
code_of access = 2
code_of no_device = 3
code_of not_found = 4
code_of busy = 5
code_of timeout = 6
code_of overflow = 7
code_of pipe = 8
code_of interrupted = 9
code_of no_mem = 10
code_of not_supported = 11
code_of other = 98

from_negative-code_of : (e : LibusbError) → from_negative (code_of e) ≡ e
unfolding from_negative
from_negative-code_of io = refl
from_negative-code_of invalid_param = refl
from_negative-code_of access = refl
from_negative-code_of no_device = refl
from_negative-code_of not_found = refl
from_negative-code_of busy = refl
from_negative-code_of timeout = refl
from_negative-code_of overflow = refl
from_negative-code_of pipe = refl
from_negative-code_of interrupted = refl
from_negative-code_of no_mem = refl
from_negative-code_of not_supported = refl
from_negative-code_of other = refl

from_negative-inverse : (n : ℕ) (e : LibusbError) → e ≢ other → from_negative n ≡ e → n ≡ code_of e
unfolding from_negative
from_negative-inverse n io h p = ground arith
from_negative-inverse n invalid_param h p = ground arith
from_negative-inverse n access h p = ground arith
from_negative-inverse n no_device h p = ground arith
from_negative-inverse n not_found h p = ground arith
from_negative-inverse n busy h p = ground arith
from_negative-inverse n timeout h p = ground arith
from_negative-inverse n overflow h p = ground arith
from_negative-inverse n pipe h p = ground arith
from_negative-inverse n interrupted h p = ground arith
from_negative-inverse n no_mem h p = ground arith
from_negative-inverse n not_supported h p = ground arith
from_negative-inverse n other h p = absurd (h refl)

-- Every error but `other` is read from its own number and from no other number; all remaining
-- numbers, and those that are not negative, are read as `other`.
pub from_raw-exact :
    (x : ℤ) (e : LibusbError) → e ≢ other → (from_raw x ≡ e) ↔ (x ≡ negsuc (code_of e))
unfolding from_raw
from_raw-exact (pos n) e h = (λ p. absurd (h (cc)), λ p. cc)
from_raw-exact (negsuc n) e h =
    (λ p. ap negsuc (from_negative-inverse n e h p), λ p. cc (p, from_negative-code_of e))
