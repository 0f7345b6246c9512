-- ===== src/Guest/ReadAndHash/Data.antt =====
-- usb-wasi-guest/examples/read_and_hash.rs, the data of the program: its disk, what it calls of the
-- host, and how its calls end.
use masters_sibren_wieme.Prelude.{ℕ, ◌+◌, ◌-◌, ◌^◌, min, List}
use masters_sibren_wieme.Prelude.Int.{ℤ, pos, negsuc}
use masters_sibren_wieme.Host.Errors.{LibusbError, Result, ok, err}
use masters_sibren_wieme.Host.Transfer.{TransferType, TransferSetup, TransferOptions}

-- How a call on an object of type `T` ends: with a value, with an error, or by a panic.
pub data Outcome (E T A : Type 0) : Type 0 where
  returned : A → T → Outcome E T A
  failed : E → T → Outcome E T A
  panicked : Outcome E T A

module _ {E T A B : Type 0} where
  abbrev pub bound : Outcome E T A → (A → T → Outcome E T B) → Outcome E T B
  bound (returned a t) f = f a t
  bound (failed e t) f = failed e t
  bound panicked f = panicked

  infixl 5 ◌>>=◌
  -- The operator `?`.
  abbrev pub ◌>>=◌ : (T → Outcome E T A) → (A → T → Outcome E T B) → T → Outcome E T B
  (m >>= f) t = bound (m t) f

abbrev pub from_result : {T A : Type 0} → Result A → T → Outcome LibusbError T A
from_result (ok a) t = returned a t
from_result (err e) t = failed e t

-- A device handle of the WIT interface, with the state of the host.
pub record Handle (S : Type 0) : Type 0 where
  pub set_configuration : ℕ → S → Outcome LibusbError S (Unit {0})
  pub claim_interface : ℕ → S → Outcome LibusbError S (Unit {0})
  pub new_transfer :
      TransferType → TransferSetup → ℕ → TransferOptions → S → Outcome LibusbError S ℕ
  pub submit_transfer : ℕ → List ℕ → S → Outcome LibusbError S (Unit {0})
  pub await_transfer : ℕ → S → Outcome LibusbError S (List ℕ)

pub record DeviceCapacity : Type 0 where
  pub size : ℕ  -- u64
  pub block_length : ℕ  -- u32

-- With the state of the host in place of the handle.
pub record UsbMassStorage (S : Type 0) : Type 0 where
  pub host : S
  pub in_endpoint : ℕ  -- u8
  pub out_endpoint : ℕ  -- u8
  pub block_size : ℕ  -- u32
  pub seek_position : ℕ  -- u64
  pub capacity : DeviceCapacity
  pub tag : ℕ  -- u32

-- `std::io::Error`, by what made it.
pub data IoError : Type 0 where
  invalid_input : IoError
  usb_error : LibusbError → IoError

-- `std::io::SeekFrom`
pub data SeekFrom : Type 0 where
  start_of : ℕ → SeekFrom
  end_of current : ℤ → SeekFrom

-- The traits `Read` and `Seek`: `read n` fills the front of a buffer of n bytes and gives the bytes there.
pub record ReadSeek (T : Type 0) : Type 0 where
  pub read : ℕ → T → Outcome IoError T (List ℕ)
  pub seek : SeekFrom → T → Outcome IoError T ℕ

-- `u64::saturating_add`
abbrev pub saturating_add : ℕ → ℕ → ℕ
saturating_add a b = min (a + b) (2 ^ 64 - 1)

-- `offset as u64`
abbrev pub as_u64 : ℤ → ℕ
as_u64 (pos n) = n
as_u64 (negsuc n) = 2 ^ 64 - (n + 1)

-- `u64::saturating_add_signed`
abbrev pub saturating_add_signed : ℕ → ℤ → ℕ
saturating_add_signed a (pos n) = saturating_add a n
saturating_add_signed a (negsuc n) = a - (n + 1)
