-- ===== src/Host/Backend/Handles.antt =====
-- The operations of `LibusbBackend` on an open device. Each hands its arguments to one function of
-- libusb, the parameter `answer`, and reads the number that comes back.
use masters_sibren_wieme.Prelude.{
  ℕ, ◌≡◌, ◌%◌, ◌-◌, ◌<◌, Bool, true, false, refl, List, [], ◌∷◌, arith, if◌then◌else◌, ◌==◌, ◌≢◌,
  ◌↔◌, ap,
}
use masters_sibren_wieme.Prelude.Int.{ℤ, pos, negsuc, is_negative}
use masters_sibren_wieme.Host.Errors.{Result, ok, err, LibusbError, other, from_raw}
use masters_sibren_wieme.Host.Errors.Codes.{code_of, from_raw-exact}

-- configuration.wit
pub data ConfigValue : Type 0 where
  unconfigured : ConfigValue
  value : ℕ → ConfigValue

-- What libusb answers to a call on a handle.
pub record HandleCalls : Type 0 where
  pub open_device : ℕ → ℤ
  pub opened_handle : ℕ → ℕ  -- what `libusb_open` writes
  pub get_configuration : ℕ → ℤ
  pub configuration : ℕ → ℤ  -- what `libusb_get_configuration` writes
  pub set_configuration : ℕ → ℕ → ℤ
  pub claim_interface : ℕ → ℕ → ℤ
  pub release_interface : ℕ → ℕ → ℤ
  pub set_interface_alt_setting : ℕ → ℕ → ℕ → ℤ
  pub clear_halt : ℕ → ℕ → ℤ
  pub reset_device : ℕ → ℤ
  pub kernel_driver_active : ℕ → ℕ → ℤ
  pub detach_kernel_driver : ℕ → ℕ → ℤ
  pub attach_kernel_driver : ℕ → ℕ → ℤ

-- `match res { 0.. => Ok(()), _ => Err(LibusbError::from_raw(res)) }`
unfoldable pub checked : ℤ → Result (Unit {0})
checked res = if is_negative res then err (from_raw res) else ok tt

-- The handle, and whether auto-detach was then asked for.
unfoldable pub open_device : HandleCalls → ℕ → Result ℕ × List ℕ
open_device lib device =
    if is_negative (lib.open_device device)
    then (err (from_raw (lib.open_device device)), [])
    else (ok (lib.opened_handle device), lib.opened_handle device ∷ [])

-- `config as u8`
abbrev pub to_u8 : ℤ → ℕ
to_u8 (pos n) = n % 256
to_u8 (negsuc n) = 255 - n % 256

unfoldable pub get_configuration : HandleCalls → ℕ → Result ℕ
get_configuration lib handle =
    if is_negative (lib.get_configuration handle)
    then err (from_raw (lib.get_configuration handle))
    else ok (to_u8 (lib.configuration handle))

abbrev pub config_number : ConfigValue → ℕ
config_number (value v) = v
config_number unconfigured = 0

unfoldable pub set_configuration : HandleCalls → ℕ → ConfigValue → Result (Unit {0})
set_configuration lib handle config = checked (lib.set_configuration handle (config_number config))

unfoldable pub claim_interface : HandleCalls → ℕ → ℕ → Result (Unit {0})
claim_interface lib handle ifac = checked (lib.claim_interface handle ifac)

unfoldable pub release_interface : HandleCalls → ℕ → ℕ → Result (Unit {0})
release_interface lib handle ifac = checked (lib.release_interface handle ifac)

unfoldable pub set_interface_alt_setting : HandleCalls → ℕ → ℕ → ℕ → Result (Unit {0})
set_interface_alt_setting lib handle ifac alt_setting =
    checked (lib.set_interface_alt_setting handle ifac alt_setting)

unfoldable pub clear_halt : HandleCalls → ℕ → ℕ → Result (Unit {0})
clear_halt lib handle endpoint = checked (lib.clear_halt handle endpoint)

unfoldable pub reset_device : HandleCalls → ℕ → Result (Unit {0})
reset_device lib handle = checked (lib.reset_device handle)

-- `match res { 0 => Ok(false), 1.. => Ok(true), _ => Err(…) }`
unfoldable pub driver_answer : ℤ → Result Bool
driver_answer (pos n) = if n == 0 then ok false else ok true
driver_answer (negsuc n) = err (from_raw (negsuc n))

unfoldable pub kernel_driver_active : HandleCalls → ℕ → ℕ → Result Bool
kernel_driver_active lib handle ifac = driver_answer (lib.kernel_driver_active handle ifac)

unfoldable pub detach_kernel_driver : HandleCalls → ℕ → ℕ → Result (Unit {0})
detach_kernel_driver lib handle ifac = checked (lib.detach_kernel_driver handle ifac)

unfoldable pub attach_kernel_driver : HandleCalls → ℕ → ℕ → Result (Unit {0})
attach_kernel_driver lib handle ifac = checked (lib.attach_kernel_driver handle ifac)

checked-exact :
    (res : ℤ) (e : LibusbError) → e ≢ other → (checked res ≡ err e) ↔ (res ≡ negsuc (code_of e))
unfolding checked
checked-exact (pos n) e h = (λ p. cc, λ p. cc)
checked-exact (negsuc n) e h = (
  λ p. (from_raw-exact (negsuc n) e h).0 (err-injective p),
  λ p. ap err ((from_raw-exact (negsuc n) e h).1 p),
)
  where
    error_of : Result (Unit {0}) → LibusbError
    error_of (ok _) = e
    error_of (err x) = x

    err-injective : {x y : LibusbError} → ◌≡◌ {A = Result (Unit {0})} (err x) (err y) → x ≡ y
    err-injective p = ap error_of p

-- Each call that only reports success fails with an error, other than `other`, exactly when libusb
-- answered that error's number to the call with the same arguments; unconfiguring asks for 0.
pub handle_calls-exact :
    (lib : HandleCalls) (handle ifac alt_setting endpoint : ℕ) (config : ConfigValue)
    (e : LibusbError)
    → e ≢ other
    → ((claim_interface lib handle ifac ≡ err e)
        ↔ (lib.claim_interface handle ifac ≡ negsuc (code_of e)))
      × ((release_interface lib handle ifac ≡ err e)
          ↔ (lib.release_interface handle ifac ≡ negsuc (code_of e)))
      × ((set_interface_alt_setting lib handle ifac alt_setting ≡ err e)
          ↔ (lib.set_interface_alt_setting handle ifac alt_setting ≡ negsuc (code_of e)))
      × ((set_configuration lib handle config ≡ err e)
          ↔ (lib.set_configuration handle (config_number config) ≡ negsuc (code_of e)))
      × ((clear_halt lib handle endpoint ≡ err e)
          ↔ (lib.clear_halt handle endpoint ≡ negsuc (code_of e)))
      × ((reset_device lib handle ≡ err e) ↔ (lib.reset_device handle ≡ negsuc (code_of e)))
      × ((detach_kernel_driver lib handle ifac ≡ err e)
          ↔ (lib.detach_kernel_driver handle ifac ≡ negsuc (code_of e)))
      × ((attach_kernel_driver lib handle ifac ≡ err e)
          ↔ (lib.attach_kernel_driver handle ifac ≡ negsuc (code_of e)))
unfolding claim_interface release_interface set_interface_alt_setting set_configuration clear_halt
    reset_device detach_kernel_driver attach_kernel_driver
handle_calls-exact lib handle ifac alt_setting endpoint config e h = (
  checked-exact _ e h,
  checked-exact _ e h,
  checked-exact _ e h,
  checked-exact _ e h,
  checked-exact _ e h,
  checked-exact _ e h,
  checked-exact _ e h,
  checked-exact _ e h,
)

-- What a guest reads back: unconfigured is the number 0.
abbrev pub read_back : ConfigValue → ℕ
read_back unconfigured = 0
read_back (value v) = v

checked-ok : (res : ℤ) → checked res ≡ ok tt → is_negative res ≡ false
unfolding checked
checked-ok (pos n) h = refl
checked-ok (negsuc n) h = absurd (cc)

get_configuration-number :
    (lib : HandleCalls) (handle n : ℕ)
    → n < 256
    → is_negative (lib.get_configuration handle) ≡ false
    → lib.configuration handle ≡ pos n
    → get_configuration lib handle ≡ ok n
unfolding get_configuration
get_configuration-number lib handle n small good e = simp (good, e) (ap ok (omega arith))

-- Where libusb reports, after it has taken a configuration, the number it was given, the guest
-- that set a configuration of one byte reads the same back, and 0 after `unconfigured`.
pub set_configuration-get_configuration :
    (lib after : HandleCalls) (handle : ℕ) (config : ConfigValue)
    → read_back config < 256
    → ((n : ℕ)
        → is_negative (lib.set_configuration handle n) ≡ false
        → (is_negative (after.get_configuration handle) ≡ false)
          × (after.configuration handle ≡ pos n))
    → set_configuration lib handle config ≡ ok tt
    → get_configuration after handle ≡ ok (read_back config)
unfolding set_configuration
set_configuration-get_configuration lib after handle unconfigured small keeps set =
    let kept = keeps 0 (checked-ok (lib.set_configuration handle 0) set) in
    get_configuration-number after handle 0 small kept.0 kept.1
set_configuration-get_configuration lib after handle (value v) small keeps set =
    let kept = keeps v (checked-ok (lib.set_configuration handle v) set) in
    get_configuration-number after handle v small kept.0 kept.1
