-- ===== src/Guest/MassStorage/Reading/Disk.antt =====
-- A disk of blocks of 512 bytes behind the block commands, and its bytes by their addresses.
use masters_sibren_wieme.Prelude.{
  ℕ, zero, suc, ◌≡◌, refl, ◌≤◌, ◌<◌, ◌+◌, ◌-◌, ◌*◌, ◌/◌, ◌%◌, some, List, [], ◌∷◌, ◌++◌, ◌==◌,
  length, take, drop, get_or, arith, ◌∙◌, ap, if◌then◌else◌, length-append, Bool-cases, ltb, inl,
  inr, ltb→lt, ltb_false→le,
}
use masters_sibren_wieme.Guest.MassStorage.Data.{BlockIo}

abbrev pub blocks_of : (ℕ → List ℕ) → ℕ → ℕ → List ℕ
blocks_of f block zero = []
blocks_of f block (suc n) = f block ++ blocks_of f (block + 1) n

-- The bytes from an address on.
abbrev pub bytes_at : (ℕ → List ℕ) → ℕ → ℕ → List ℕ
bytes_at f address zero = []
bytes_at f address (suc n) =
    get_or (f (address / 512)) (address % 512) 0 ∷ bytes_at f (address + 1) n

-- What a disk of `total` blocks, in a state that is ready for it, does for its host: reading at most
-- 128 blocks gives them and keeps them, writing one block changes that block only.
pub record IsDisk {D : Type 0} (io : BlockIo D) (contents : D → ℕ → List ℕ) (total : ℕ)
    (Ready : D → Type 0) : Type 0 where
  pub sized : (d : D) (block : ℕ) → length (contents d block) ≡ 512
  pub reads :
      (block n : ℕ) (d : D)
      → Ready d
      → 0 < n
      → n ≤ 128
      → block + n ≤ total
      → (d' : D) × (io.read_blocks 512 block n d ≡ some (blocks_of (contents d) block n, d'))
        × ((k : ℕ) → contents d' k ≡ contents d k)
        × Ready d'
  pub writes :
      (block : ℕ) (bytes : List ℕ) (d : D)
      → Ready d
      → block < total
      → length bytes ≡ 512
      → (d' : D) × (io.write_blocks 512 block 1 bytes d ≡ some d')
        × ((k : ℕ) → contents d' k ≡ (if k == block then bytes else contents d k))
        × Ready d'

module _ (f : ℕ → List ℕ) (sized : (block : ℕ) → length (f block) ≡ 512) where
  pub length-blocks_of : (block n : ℕ) → length (blocks_of f block n) ≡ n * 512
  length-blocks_of block zero = refl
  length-blocks_of block (suc n) = omega (
    arith,
    length-append (f block) (blocks_of f (block + 1) n),
    sized block,
    length-blocks_of (block + 1) n,
  )

  get_or-append_left :
      (xs ys : List ℕ) (j : ℕ) → j < length xs → get_or (xs ++ ys) j 0 ≡ get_or xs j 0
  get_or-append_left [] ys j h = absurd (omega arith)
  get_or-append_left (x ∷ xs) ys zero h = refl
  get_or-append_left (x ∷ xs) ys (suc j) h = get_or-append_left xs ys j (omega arith)

  get_or-append_right :
      (xs ys : List ℕ) (j : ℕ) → length xs ≤ j → get_or (xs ++ ys) j 0 ≡ get_or ys (j - length xs) 0
  get_or-append_right [] ys j h = ap (λ k. get_or ys k 0) (omega arith)
  get_or-append_right (x ∷ xs) ys zero h = absurd (omega arith)
  get_or-append_right (x ∷ xs) ys (suc j) h =
      get_or-append_right xs ys j (omega arith) ∙ ap (λ k. get_or ys k 0) (omega arith)

  get_or-blocks_of :
      (n block j : ℕ)
      → j < n * 512
      → get_or (blocks_of f block n) j 0 ≡ get_or (f (block + j / 512)) (j % 512) 0
  get_or-blocks_of zero block j h = absurd (omega arith)
  get_or-blocks_of (suc n) block j h = elim (Bool-cases (ltb j 512)) [
    | inl low ↦
        let small : j < 512 = ltb→lt j 512 low in
        get_or-append_left (f block) (blocks_of f (block + 1) n) j
          (omega (arith, sized block, small))
        ∙ (let e : block + j / 512 ≡ block = omega (arith, small) in
            let e' : j % 512 ≡ j = omega (arith, small) in rw (e, e') refl)
    | inr high ↦
        let big : 512 ≤ j = ltb_false→le j 512 high in
        get_or-append_right (f block) (blocks_of f (block + 1) n) j
          (omega (arith, sized block, big))
        ∙ ap (λ k. get_or (blocks_of f (block + 1) n) (j - k) 0) (sized block)
        ∙ get_or-blocks_of n (block + 1) (j - 512) (omega (arith, big))
        ∙ (let e : block + 1 + (j - 512) / 512 ≡ block + j / 512 = omega (arith, big) in
            let e' : (j - 512) % 512 ≡ j % 512 = omega (arith, big) in rw (e, e') refl)
  ]

  drop-get_or : (xs : List ℕ) (i : ℕ) → i < length xs → drop i xs ≡ get_or xs i 0 ∷ drop (suc i) xs
  drop-get_or [] i h = absurd (omega arith)
  drop-get_or (x ∷ xs) zero h = refl
  drop-get_or (x ∷ xs) (suc i) h = drop-get_or xs i (omega arith)

  -- A part of some blocks is the bytes from its address on.
  pub bytes_at-blocks_of :
      (n block m offset : ℕ)
      → offset + n ≤ m * 512
      → take n (drop offset (blocks_of f block m)) ≡ bytes_at f (block * 512 + offset) n
  bytes_at-blocks_of zero block m offset h = refl
  bytes_at-blocks_of (suc n) block m offset h =
      let rest = bytes_at-blocks_of n block m (suc offset) (omega arith) in
      let here : block * 512 + suc offset ≡ block * 512 + offset + 1 = omega arith in
      let e : (block * 512 + offset) / 512 ≡ block + offset / 512 = omega arith in
      let e' : (block * 512 + offset) % 512 ≡ offset % 512 = omega arith in
      ap (take (suc n))
        (drop-get_or (blocks_of f block m) offset (omega (arith, length-blocks_of block m)))
      ∙ rw (get_or-blocks_of m block offset (omega arith), e, e', rest, here) refl
