-- ===== src/Guest/BulkOnly/Bytes.antt =====
-- The crate `bytes`, as far as the transport uses it, and what its documentation says of it.
use masters_sibren_wieme.Prelude.{
  ℕ, ◌≡◌, ◌≤◌, ◌+◌, ◌-◌, ◌*◌, ◌/◌, ◌%◌, ◌^◌, Option, some, List, [], ◌∷◌, ◌++◌, replicate, length,
}

-- A buffer is its bytes; a getter gives `none` where it panics, for too few bytes.
pub record BytesCrate : Type 0 where
  pub put_u32_le : ℕ → List ℕ → List ℕ
  pub put_u8 : ℕ → List ℕ → List ℕ
  pub put_slice : List ℕ → List ℕ → List ℕ
  pub put_bytes : ℕ → ℕ → List ℕ → List ℕ
  pub get_u32_le : List ℕ → Option (ℕ × List ℕ)
  pub get_u8 : List ℕ → Option (ℕ × List ℕ)
  -- In big endian order, and `advance`.
  pub put_u32 : ℕ → List ℕ → List ℕ
  pub put_u16 : ℕ → List ℕ → List ℕ
  pub get_u32 : List ℕ → Option (ℕ × List ℕ)
  pub advance : ℕ → List ℕ → Option (List ℕ)
  pub resize : ℕ → ℕ → List ℕ → List ℕ

-- The four bytes of a u32 in little endian order.
abbrev pub le_bytes : ℕ → List ℕ
le_bytes x = x % 2 ^ 8 ∷ x / 2 ^ 8 % 2 ^ 8 ∷ x / 2 ^ 16 % 2 ^ 8 ∷ x / 2 ^ 24 % 2 ^ 8 ∷ []

-- The bytes of a u32 and of a u16 in big endian order.
abbrev pub be_bytes : ℕ → List ℕ
be_bytes x = x / 2 ^ 24 % 2 ^ 8 ∷ x / 2 ^ 16 % 2 ^ 8 ∷ x / 2 ^ 8 % 2 ^ 8 ∷ x % 2 ^ 8 ∷ []

abbrev pub be_bytes_u16 : ℕ → List ℕ
be_bytes_u16 x = x / 2 ^ 8 % 2 ^ 8 ∷ x % 2 ^ 8 ∷ []

pub record IsDocumented (b : BytesCrate) : Type 0 where
  pub puts_u32 : (x : ℕ) (buf : List ℕ) → b.put_u32_le x buf ≡ buf ++ le_bytes x
  pub puts_u8 : (x : ℕ) (buf : List ℕ) → b.put_u8 x buf ≡ buf ++ (x ∷ [])
  pub puts_slice : (xs buf : List ℕ) → b.put_slice xs buf ≡ buf ++ xs
  pub puts_bytes : (x n : ℕ) (buf : List ℕ) → b.put_bytes x n buf ≡ buf ++ replicate n x
  pub gets_u32 :
      (x y z w : ℕ) (rest : List ℕ)
      → b.get_u32_le (x ∷ y ∷ z ∷ w ∷ rest) ≡ some (x + 2 ^ 8 * y + 2 ^ 16 * z + 2 ^ 24 * w, rest)
  pub gets_u8 : (x : ℕ) (rest : List ℕ) → b.get_u8 (x ∷ rest) ≡ some (x, rest)
  pub puts_u32_be : (x : ℕ) (buf : List ℕ) → b.put_u32 x buf ≡ buf ++ be_bytes x
  pub puts_u16_be : (x : ℕ) (buf : List ℕ) → b.put_u16 x buf ≡ buf ++ be_bytes_u16 x
  pub gets_u32_be :
      (x y z w : ℕ) (rest : List ℕ)
      → b.get_u32 (x ∷ y ∷ z ∷ w ∷ rest) ≡ some (2 ^ 24 * x + 2 ^ 16 * y + 2 ^ 8 * z + w, rest)
  pub advances : (skipped rest : List ℕ) → b.advance (length skipped) (skipped ++ rest) ≡ some rest
  pub resizes :
      (n x : ℕ) (buf : List ℕ)
      → length buf ≤ n
      → b.resize n x buf ≡ buf ++ replicate (n - length buf) x
