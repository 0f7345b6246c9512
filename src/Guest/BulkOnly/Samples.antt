-- ===== src/Guest/BulkOnly/Samples.antt =====
-- A crate `bytes` and a device that answers its awaits from a list, for the tests.
use masters_sibren_wieme.Prelude.{
  ℕ, zero, suc, ◌≡◌, ◌≤◌, ◌+◌, ◌-◌, ◌*◌, ◌^◌, Option, none, some, List, [], ◌∷◌, ◌++◌, refl, length,
  replicate, take, arith, ap,
}
use masters_sibren_wieme.Guest.BulkOnly.{DeviceHandle, BulkOnlyTransportDevice}
use masters_sibren_wieme.Guest.BulkOnly.Bytes.{
  BytesCrate, IsDocumented, le_bytes, be_bytes, be_bytes_u16,
}

abbrev pub get_u32_of : List ℕ → Option (ℕ × List ℕ)
get_u32_of (x ∷ y ∷ z ∷ w ∷ rest) = some (x + 2 ^ 8 * y + 2 ^ 16 * z + 2 ^ 24 * w, rest)
get_u32_of _ = none

abbrev pub get_byte : List ℕ → Option (ℕ × List ℕ)
get_byte [] = none
get_byte (x ∷ rest) = some (x, rest)

abbrev pub get_u32_be : List ℕ → Option (ℕ × List ℕ)
get_u32_be (x ∷ y ∷ z ∷ w ∷ rest) = some (2 ^ 24 * x + 2 ^ 16 * y + 2 ^ 8 * z + w, rest)
get_u32_be _ = none

abbrev pub skip : ℕ → List ℕ → Option (List ℕ)
skip zero rest = some rest
skip (suc n) [] = none
skip (suc n) (x ∷ rest) = skip n rest

skip-append : (skipped rest : List ℕ) → skip (length skipped) (skipped ++ rest) ≡ some rest
skip-append [] rest = refl
skip-append (x ∷ skipped) rest = skip-append skipped rest

take-all : (n : ℕ) (xs : List ℕ) → length xs ≤ n → take n xs ≡ xs
take-all zero [] h = refl
take-all zero (x ∷ xs) h = absurd (omega arith)
take-all (suc n) [] h = refl
take-all (suc n) (x ∷ xs) h = ap (◌∷◌ x) (take-all n xs (omega arith))

abbrev pub bytes_crate : BytesCrate
bytes_crate = record {
  put_u32_le = λ x buf. buf ++ le_bytes x;
  put_u8 = λ x buf. buf ++ (x ∷ []);
  put_slice = λ xs buf. buf ++ xs;
  put_bytes = λ x n buf. buf ++ replicate n x;
  get_u32_le = get_u32_of;
  get_u8 = get_byte;
  put_u32 = λ x buf. buf ++ be_bytes x;
  put_u16 = λ x buf. buf ++ be_bytes_u16 x;
  get_u32 = get_u32_be;
  advance = skip;
  resize = λ n x buf. take n buf ++ replicate (n - length buf) x;
}

pub bytes_crate-IsDocumented : IsDocumented bytes_crate
bytes_crate-IsDocumented = record {
  puts_u32 = λ x buf. refl;
  puts_u8 = λ x buf. refl;
  puts_slice = λ xs buf. refl;
  puts_bytes = λ x n buf. refl;
  gets_u32 = λ x y z w rest. refl;
  gets_u8 = λ x rest. refl;
  puts_u32_be = λ x buf. refl;
  puts_u16_be = λ x buf. refl;
  gets_u32_be = λ x y z w rest. refl;
  advances = skip-append;
  resizes = λ n x buf h. ap (λ ys. ys ++ replicate (n - length buf) x) (take-all n buf h);
}

abbrev pub next : List (List ℕ) → Option (List ℕ) × List (List ℕ)
next [] = (none, [])
next (answer ∷ answers) = (some answer, answers)

abbrev pub scripted : DeviceHandle (List (List ℕ))
scripted = record {
  open_device = λ s. some s;
  reset_device = λ s. s;
  get_configuration = λ s. (some 1, s);
  set_configuration = λ c s. s;
  claim_interface = λ i s. s;
  new_transfer = λ type setup size opts s. some (0, s);
  submit_transfer = λ x payload s. s;
  await_transfer = λ x s. next s;
}

abbrev pub disk : BulkOnlyTransportDevice
disk = record { bulk_in = 0x81; bulk_out = 2; current_tag = 7; selected_lun = 0; max_lun = 0 }
