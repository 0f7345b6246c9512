-- ===== src/Guest/ReadAndHash/Hashing.antt =====
-- usb-wasi-guest/examples/read_and_hash.rs, read_item: the hash of a file. The file's handle, of the crate
-- `exfat`, and the hasher, of `sha2`, are parameters.
use masters_sibren_wieme.Prelude.{
  ℕ, zero, suc, ◌≡◌, refl, ◌≤◌, ◌<◌, ◌+◌, ◌-◌, ◌%◌, ◌^◌, min, Option, none, some, List, [], ◌∷◌,
  ◌++◌, ltb, if◌then◌else◌, length, take, arith, sym, ap, ◌∙◌, Bool-cases, inl, inr, length-append,
  length-take, take-length_self, take-append_over, ◌==◌, ==_iff,
}

-- `Sha256`; `finalize` gives the text of the hash.
pub record Hasher (H : Type 0) : Type 0 where
  pub new : H
  pub update : List ℕ → H → H
  pub finalize : H → List ℕ

-- `Read` of an open file: the bytes at the front of a buffer of n bytes, or `none` for an error.
pub record FileHandle (F : Type 0) : Type 0 where
  pub read : ℕ → F → Option (List ℕ × F)

-- How the loop over a file ends.
pub data Hashing (H : Type 0) : Type 0 where
  hashed : H → Hashing H
  failed out_of_fuel : Hashing H

module _ {F H : Type 0} (file : FileHandle F) (sha : Hasher H) where
  -- The three arms for the result of a read; `go` is the next round of the loop.
  abbrev pub after_read : (ℕ → F → H → Hashing H) → ℕ → H → Option (List ℕ × F) → Hashing H
  after_read go total_read hasher none = failed
  after_read go total_read hasher (some ([], f)) = hashed hasher
  after_read go total_read hasher (some (x ∷ xs, f)) =
      go ((total_read + length (x ∷ xs)) % 2 ^ 64) f (sha.update (x ∷ xs) hasher)

  -- The loop, with fuel for its rounds; a usize has 32 bits.
  unfoldable pub hash_loop : ℕ → ℕ → ℕ → F → H → Hashing H
  hash_loop zero size total_read f hasher = out_of_fuel
  hash_loop (suc fuel) size total_read f hasher =
      let to_read = min ((size - total_read) % 2 ^ 32) 8192 in
      let rest = after_read (hash_loop fuel size) total_read hasher (file.read to_read f) in
      if ltb total_read size then rest else hashed hasher

  abbrev pub text_of : List ℕ → Hashing H → Option (List ℕ × List ℕ)
  text_of name (hashed h) = some (name, sha.finalize h)
  text_of name failed = none
  text_of name out_of_fuel = none

  -- `read_item` of a file; the result of `file.open()` is an error, no handle, or a handle.
  unfoldable pub read_file : ℕ → List ℕ → ℕ → Option (Option F) → Option (List ℕ × List ℕ)
  read_file fuel name size none = none
  read_file fuel name size (some none) = none
  read_file fuel name size (some (some f)) = text_of name (hash_loop fuel size 0 f sha.new)

  -- What the documentation of `Read` says, for a file with no errors, of which `rest f` is what is left:
  -- a read gives a part of it from its front on, and none only for an empty buffer or at the end.
  pub record IsFile (rest : F → List ℕ) : Type 0 where
    pub reads :
        (n : ℕ) (f : F)
        → (bytes : List ℕ) × (f' : F) × (file.read n f ≡ some (bytes, f'))
          × (rest f ≡ bytes ++ rest f')
          × (length bytes ≤ n)
          × (0 < n → 0 < length (rest f) → 0 < length bytes)

  -- A hasher takes its bytes in pieces.
  pub record IsStreaming : Type 0 where
    pub update-nil : (h : H) → sha.update [] h ≡ h
    pub update-append :
        (xs ys : List ℕ) (h : H) → sha.update (xs ++ ys) h ≡ sha.update ys (sha.update xs h)

  module _ (rest : F → List ℕ) (is_file : IsFile rest) (streaming : IsStreaming) where
    after_read-hashed :
        (go : ℕ → F → H → Hashing H) (k total_read : ℕ) (hasher : H) (f f' : F) (bytes : List ℕ)
        → rest f ≡ bytes ++ rest f'
        → length bytes ≤ k
        → (0 < k → 0 < length bytes)
        → total_read + k < 2 ^ 64
        → (0 < length bytes
            → go (total_read + length bytes) f' (sha.update bytes hasher)
              ≡ hashed (sha.update (take (k - length bytes) (rest f')) (sha.update bytes hasher)))
        → after_read go total_read hasher (some (bytes, f'))
          ≡ hashed (sha.update (take k (rest f)) hasher)
    after_read-hashed go k total_read hasher f f' [] e short some' small next =
        let empty : k ≡ 0 = elim (Bool-cases (k == 0)) [
          | inl zero' ↦ (==_iff k 0).0 zero'
          | inr more ↦ absurd (omega (arith, some' (ground arith)))
        ] in
        rw empty (ap hashed (sym (streaming.update-nil hasher)))
    after_read-hashed go k total_read hasher f f' (x ∷ xs) e short some' small next =
        let n = length (x ∷ xs) in
        let sum : (total_read + n) % 2 ^ 64 ≡ total_read + n = omega arith in
        rw sum (
          next (omega arith)
          ∙ ap hashed (
              sym (streaming.update-append (x ∷ xs) (take (k - n) (rest f')) hasher)
              ∙ ap (λ ys. sha.update ys hasher)
                  (sym (ap (take k) e ∙ take-append_over k (x ∷ xs) (rest f') short))))

    -- The loop ends, for fuel above the rounds that it can make, with the hash of as many bytes from the
    -- front of the file as the low 32 bits of its size say.
    hash_loop-hashed :
        (fuel size total_read : ℕ) (f : F) (hasher : H)
        → total_read ≤ size
        → size < 2 ^ 64
        → size - total_read ≤ length (rest f)
        → (size - total_read) % 2 ^ 32 < fuel
        → hash_loop fuel size total_read f hasher
          ≡ hashed (sha.update (take ((size - total_read) % 2 ^ 32) (rest f)) hasher)
    unfolding hash_loop
    hash_loop-hashed zero size total_read f hasher within small long enough = absurd (omega arith)
    hash_loop-hashed (suc fuel) size total_read f hasher within small long enough =
        let k = (size - total_read) % 2 ^ 32 in
        elim (Bool-cases (ltb total_read size)) [
          | inl more ↦
              let (bytes, f', got, e, short, some') = is_file.reads (min k 8192) f in
              let both : length (rest f) ≡ length bytes + length (rest f') =
                ap length e ∙ length-append bytes (rest f') in
              rw (more, got)
                (after_read-hashed (hash_loop fuel size) k total_read hasher f f' bytes e
                  (omega arith) (λ h. some' (omega arith) (ground arith)) (omega arith)
                  (λ h.
                    let left : (size - (total_read + length bytes)) % 2 ^ 32 ≡ k - length bytes =
                      omega arith in
                    hash_loop-hashed fuel size (total_read + length bytes) f'
                      (sha.update bytes hasher) (omega arith) small (omega arith) (omega arith)
                    ∙ rw left refl))
          | inr done ↦
              let none_left : k ≡ 0 = ground arith in
              rw (done, none_left) (ap hashed (sym (streaming.update-nil hasher)))
        ]

    -- For each file whose reads succeed, whatever their sizes, and with fuel for one round more than the
    -- low 32 bits of its size say, read_item ends and gives the file's name with the hash of as many bytes
    -- from its front as these 32 bits say: of the whole file below 4 GiB, and of less of it from there on.
    pub read_file-hashed :
        (fuel : ℕ) (name : List ℕ) (size : ℕ) (f : F)
        → size < 2 ^ 64
        → length (rest f) ≡ size
        → size % 2 ^ 32 < fuel
        → (read_file fuel name size (some (some f))
            ≡ some (name, sha.finalize (sha.update (take (size % 2 ^ 32) (rest f)) sha.new)))
          × (size < 2 ^ 32 → take (size % 2 ^ 32) (rest f) ≡ rest f)
          × (2 ^ 32 ≤ size → length (take (size % 2 ^ 32) (rest f)) < size)
    unfolding read_file
    read_file-hashed fuel name size f small long enough =
        let left : size - 0 ≡ size = omega arith in
        let ended : hash_loop fuel size 0 f sha.new
            ≡ hashed (sha.update (take (size % 2 ^ 32) (rest f)) sha.new) =
          hash_loop-hashed fuel size 0 f sha.new (omega arith) small (omega arith) (omega arith)
          ∙ rw left refl in
        (
          ap (text_of name) ended,
          λ below.
              let all : size % 2 ^ 32 ≡ length (rest f) = omega arith in
              rw all (take-length_self (rest f)),
          λ above. omega (arith, length-take (size % 2 ^ 32) (rest f)),
        )
