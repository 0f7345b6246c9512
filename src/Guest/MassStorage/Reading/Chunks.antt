-- ===== src/Guest/MassStorage/Reading/Chunks.antt =====
-- Blocks that a read puts into the cache.
use masters_sibren_wieme.Prelude.{
  ℕ, zero, suc, ◌≡◌, refl, ◌≤◌, ◌<◌, ◌+◌, ◌%◌, ◌^◌, Bool, false, Option, none, some, List, [], ◌∷◌,
  ◌++◌, ◌==◌, ==_iff, length, take, drop, get_elem?, All, arith, sym, ◌∙◌, subst, ap, length-append,
  Bool-cases, inl, inr, ne→==_false, take-append_self, drop-append_self,
}
use masters_sibren_wieme.Guest.MassStorage.Reading.Disk.{blocks_of}
use masters_sibren_wieme.Guest.MassStorage.{
  CacheEntry, BlockIo, LruCache, IsDocumented, first_match, remove_match, put_front, is_block,
  set_data, checked_data, write_evicted, insert_entry, store_block, cache_chunk, cache_chunks,
}

module _ (f : ℕ → List ℕ) where
  -- The entry is not dirty, and is the block of the disk.
  abbrev pub IsGood : CacheEntry → Type 0
  IsGood entry = (entry.dirty ≡ false) × (entry.bytes ≡ f entry.block)

  abbrev pub IsGoodOption : Option CacheEntry → Type 0
  IsGoodOption none = Unit
  IsGoodOption (some entry) = IsGood entry

  pub All-first_match :
      (p : CacheEntry → Bool) (xs : List CacheEntry)
      → All IsGood xs
      → IsGoodOption (first_match p xs) × All IsGood (remove_match p xs)
  All-first_match p [] h = (tt, tt)
  All-first_match p (x ∷ xs) h = elim (Bool-cases (p x)) [
    | inl yes' ↦ rw yes' (h.0, h.1)
    | inr no' ↦ rw no' ((All-first_match p xs h.1).0, (h.0, (All-first_match p xs h.1).1))
  ]

  abbrev pub IsOfBlock : ℕ → Option CacheEntry → Type 0
  IsOfBlock block none = Unit
  IsOfBlock block (some entry) = entry.block ≡ block

  pub first_match-IsOfBlock :
      (block : ℕ) (xs : List CacheEntry) → IsOfBlock block (first_match (is_block block) xs)
  first_match-IsOfBlock block [] = tt
  first_match-IsOfBlock block (y ∷ xs) = elim (Bool-cases (y.block == block)) [
    | inl yes' ↦ rw yes' ((==_iff y.block block).0 yes')
    | inr no' ↦ rw no' (first_match-IsOfBlock block xs)
  ]

  pub All-get_elem? : (xs : List CacheEntry) (i : ℕ) → All IsGood xs → IsGoodOption (get_elem? xs i)
  All-get_elem? [] i h = tt
  All-get_elem? (x ∷ xs) zero h = h.0
  All-get_elem? (x ∷ xs) (suc i) h = All-get_elem? xs i h.1

  pub All-take : (n : ℕ) (xs : List CacheEntry) → All IsGood xs → All IsGood (take n xs)
  All-take zero xs h = tt
  All-take (suc n) [] h = tt
  All-take (suc n) (x ∷ xs) h = (h.0, All-take n xs h.1)

  put_front-IsGood :
      (block : ℕ) (o : Option CacheEntry) (xs rest : List CacheEntry)
      → IsOfBlock block o
      → IsGoodOption o
      → All IsGood xs
      → All IsGood rest
      → All IsGood (put_front (set_data (f block)) o xs rest)
  put_front-IsGood block none xs rest same good h k = h
  put_front-IsGood block (some x) xs rest same good h k = ((good.0, ap f (sym same)), k)

  module _ {C D : Type 0} (caches : LruCache C) (documented : IsDocumented caches)
      (io : BlockIo D) where
    pub write_evicted-clean :
        (block : ℕ) (o : Option CacheEntry) (d : D)
        → IsGoodOption o
        → write_evicted caches io 512 block o d ≡ some d
    unfolding write_evicted
    write_evicted-clean block none d good = refl
    write_evicted-clean block (some entry) d good = rw good.0 refl

    store_block-IsGood :
        (block : ℕ) (r : Option CacheEntry × C) (d : D)
        → All IsGood (caches.iter r.1)
        → (c : C) × (store_block caches io 512 block (f block) r d ≡ some (c, d))
          × All IsGood (caches.iter c)
    unfolding store_block insert_entry
    store_block-IsGood block (some item, c) d h = (c, refl, h)
    store_block-IsGood block (none, c) d h =
        let entry : CacheEntry = record { block = block; bytes = f block; dirty = false } in
        (
          (caches.insert entry c).1,
          rw
              (write_evicted-clean block (caches.insert entry c).0 d (
                subst IsGoodOption (sym (documented.evicts entry c))
                  (All-get_elem? (caches.iter c) 127 h)))
              refl,
          subst (All IsGood) (sym (documented.iter_insert entry c))
              ((refl, refl), All-take 127 (caches.iter c) h),
        )

    cache_chunk-IsGood :
        (block : ℕ) (c : C) (d : D)
        → length (f block) ≡ 512
        → All IsGood (caches.iter c)
        → (c' : C) × (cache_chunk caches io 512 block (f block) c d ≡ some (c', d))
          × All IsGood (caches.iter c')
    unfolding cache_chunk checked_data
    cache_chunk-IsGood block c d sized h =
        let parts = All-first_match (is_block block) (caches.iter c) h in
        let stored =
          store_block-IsGood block (caches.find (is_block block) (set_data (f block)) c) d (
            subst (All IsGood) (sym (documented.iter_find (is_block block) (set_data (f block)) c))
              (put_front-IsGood block (first_match (is_block block) (caches.iter c)) (caches.iter c)
                (remove_match (is_block block) (caches.iter c))
                (first_match-IsOfBlock block (caches.iter c)) parts.0 h parts.1)) in
        (stored.0, rw (sized, stored.1) refl, stored.2)

    -- Blocks of the disk go into a cache of clean entries without a write, and leave it clean.
    pub cache_chunks-IsGood :
        (n fuel block : ℕ) (c : C) (d : D)
        → ((k : ℕ) → length (f k) ≡ 512)
        → n ≤ fuel
        → block + n < 2 ^ 32
        → All IsGood (caches.iter c)
        → (c' : C) × (cache_chunks caches io fuel 512 block (blocks_of f block n) c d
            ≡ some (c', d))
          × All IsGood (caches.iter c')
    unfolding cache_chunks
    cache_chunks-IsGood zero zero block c d sized enough small h = (c, refl, h)
    cache_chunks-IsGood zero (suc fuel) block c d sized enough small h = (c, refl, h)
    cache_chunks-IsGood (suc n) zero block c d sized enough small h = absurd (omega arith)
    cache_chunks-IsGood (suc n) (suc fuel) block c d sized enough small h =
        let one = cache_chunk-IsGood block c d (sized block) h in
        let rest =
          cache_chunks-IsGood n fuel (block + 1) one.0 d sized (omega arith) (omega arith) one.2 in
        let whole = f block ++ blocks_of f (block + 1) n in
        let filled : (length whole == 0) ≡ false = ne→==_false (length whole) 0 (λ e.
          omega (arith, length-append (f block) (blocks_of f (block + 1) n), sized block, e)) in
        let head : take 512 whole ≡ f block =
          ap (λ k. take k whole) (sym (sized block))
          ∙ take-append_self (f block) (blocks_of f (block + 1) n) in
        let tail : drop 512 whole ≡ blocks_of f (block + 1) n =
          ap (λ k. drop k whole) (sym (sized block))
          ∙ drop-append_self (f block) (blocks_of f (block + 1) n) in
        let next : (block + 1) % 2 ^ 32 ≡ block + 1 = omega arith in
        (rest.0, rw (filled, head, tail, next, one.1, rest.1) refl, rest.2)
