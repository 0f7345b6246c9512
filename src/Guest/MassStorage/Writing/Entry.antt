-- ===== src/Guest/MassStorage/Writing/Entry.antt =====
-- A write within one block: the bytes of the block and its entry in the cache.
use masters_sibren_wieme.Prelude.{
  ℕ, ◌≡◌, refl, ◌≤◌, ◌<◌, ◌+◌, ◌-◌, ◌/◌, ◌%◌, true, false, ◌&&◌, leb, Option, none, some, List, [],
  ◌∷◌, ◌++◌, ◌==◌, ==_iff, length, take, drop, All, arith, sym, ◌∙◌, subst, ap, append-nil,
  length-append, length-take, length-drop,
}
use masters_sibren_wieme.Guest.MassStorage.Reading.Disk.{IsDisk, blocks_of}
use masters_sibren_wieme.Guest.MassStorage.Reading.Copies.{span_of}
use masters_sibren_wieme.Guest.MassStorage.Reading.Chunks.{
  IsGood, All-take, All-first_match, first_match-IsOfBlock, write_evicted-clean, All-get_elem?,
  IsOfBlock, IsGoodOption,
}
use masters_sibren_wieme.Guest.MassStorage.{
  CacheEntry, BlockIo, LruCache, IsDocumented, Span, first_match, remove_match, put_front, copy_to,
  is_block, keep, checked_data, set_dirty, dirty_entries, insert_entry, store_block, original_block,
  write_one,
}

-- A block with some of its bytes replaced.
abbrev pub spliced : ℕ → List ℕ → List ℕ → List ℕ
spliced offset buf block = take offset block ++ (buf ++ drop (offset + length buf) block)

copy_to-spliced :
    (offset : ℕ) (buf block : List ℕ)
    → offset + length buf ≤ length block
    → copy_to offset (offset + length buf) buf block ≡ some (spliced offset buf block)
unfolding copy_to
copy_to-spliced offset buf block h =
    let fits : ((leb offset (offset + length buf) && leb (offset + length buf) (length block))
          && (length buf == offset + length buf - offset))
        ≡ true =
      ground arith in
    rw fits refl

pub length-spliced :
    (offset : ℕ) (buf block : List ℕ)
    → offset + length buf ≤ length block
    → length (spliced offset buf block) ≡ length block
length-spliced offset buf block h = omega (
  arith,
  length-append (take offset block) (buf ++ drop (offset + length buf) block),
  length-append buf (drop (offset + length buf) block),
  length-take offset block,
  length-drop (offset + length buf) block,
  h,
)

module _ {C D : Type 0} (caches : LruCache C) (documented : IsDocumented caches) (io : BlockIo D)
    (contents : D → ℕ → List ℕ) (total : ℕ) (Ready : D → Type 0)
    (disk : IsDisk io contents total Ready) where
  pub clean-dirty_entries :
      (f : ℕ → List ℕ) (xs : List CacheEntry) → All (IsGood f) xs → dirty_entries caches io xs ≡ []
  clean-dirty_entries f [] h = refl
  clean-dirty_entries f (x ∷ xs) h = rw (h.0.0, clean-dirty_entries f xs h.1) refl

  store_block-found :
      (block : ℕ) (bytes : List ℕ) (r : Option CacheEntry × C) (x : CacheEntry) (d : D)
      → r.0 ≡ some x
      → store_block caches io 512 block bytes r d ≡ some (r.1, d)
  unfolding store_block
  store_block-found block bytes (none, c) x d h = absurd (cc)
  store_block-found block bytes (some y, c) x d h = refl

  -- A block that is not cached comes in clean.
  store_block-missed :
      (block : ℕ) (bytes : List ℕ) (r : Option CacheEntry × C) (d : D) (f : ℕ → List ℕ)
      → r.0 ≡ none
      → All (IsGood f) (caches.iter r.1)
      → (c : C) × (store_block caches io 512 block bytes r d ≡ some (c, d))
        × (dirty_entries caches io (caches.iter c) ≡ [])
  unfolding store_block insert_entry
  store_block-missed block bytes (some y, c) d f h good = absurd (cc)
  store_block-missed block bytes (none, c) d f h good =
      let entry : CacheEntry = record { block = block; bytes = bytes; dirty = false } in
      (
        (caches.insert entry c).1,
        rw
            (write_evicted-clean f caches documented io block (caches.insert entry c).0 d (
              subst (IsGoodOption f) (sym (documented.evicts entry c))
                (All-get_elem? f (caches.iter c) 127 good)))
            refl,
        ap (dirty_entries caches io) (documented.iter_insert entry c)
            ∙ clean-dirty_entries f (take 127 (caches.iter c))
                (All-take f 127 (caches.iter c) good),
      )

  write_one-step :
      (span : Span) (buf original bytes : List ℕ) (c c' : C) (d d1 d2 : D) (o : Option CacheEntry)
      → (caches.find (is_block span.start_block) keep c).0 ≡ o
      → original_block caches io 512 span.start_block o d ≡ some (original, d1)
      → copy_to span.offset_in_start_block (span.offset_in_start_block + length buf) buf original
        ≡ some bytes
      → store_block caches io 512 span.start_block bytes
          (caches.find
            (is_block span.start_block)
            (set_dirty bytes)
            (caches.find (is_block span.start_block) keep c).1)
          d1
        ≡ some (c', d2)
      → write_one caches io 512 span buf c d ≡ some (c', d2)
  unfolding write_one
  write_one-step span buf original bytes c c' d d1 d2 o found got copied stored =
      rw (found, got, copied, stored) refl

  original_block-read :
      (block : ℕ) (d d' : D) (f : ℕ → List ℕ)
      → length (f block) ≡ 512
      → io.read_blocks 512 block 1 d ≡ some (blocks_of f block 1, d')
      → original_block caches io 512 block none d ≡ some (f block, d')
  unfolding original_block checked_data
  original_block-read block d d' f sized got = rw (got, append-nil (f block), sized) refl

  pub write_one-missed :
      (address : ℕ) (buf : List ℕ) (c : C) (d : D)
      → Ready d
      → address % 512 + length buf ≤ 512
      → address / 512 < total
      → first_match (is_block (address / 512)) (caches.iter c) ≡ none
      → All (IsGood (contents d)) (caches.iter c)
      → (c' : C) × (d' : D) × (write_one caches io 512 (span_of address (length buf)) buf c d
          ≡ some (c', d'))
        × ((k : ℕ) → contents d' k ≡ contents d k)
        × (dirty_entries caches io (caches.iter c') ≡ [])
        × Ready d'
  write_one-missed address buf c d ready within inside missing good =
      let block = address / 512 in
      let bytes = spliced (address % 512) buf (contents d block) in
      let c1 = (caches.find (is_block block) keep c).1 in
      let same : caches.iter c1 ≡ caches.iter c =
        documented.iter_find (is_block block) keep c ∙ rw missing refl in
      let missing1 : first_match (is_block block) (caches.iter c1) ≡ none =
        ap (first_match (is_block block)) same ∙ missing in
      let r = caches.find (is_block block) (set_dirty bytes) c1 in
      let same1 : caches.iter r.1 ≡ caches.iter c1 =
        documented.iter_find (is_block block) (set_dirty bytes) c1 ∙ rw missing1 refl in
      let got = disk.reads block 1 d ready (omega arith) (omega arith) (omega arith) in
      let stored =
        store_block-missed block bytes r got.0 (contents d)
          (documented.finds (is_block block) (set_dirty bytes) c1 ∙ missing1)
          (subst (All (IsGood (contents d))) (sym (same1 ∙ same)) good) in
      (
        stored.0,
        got.0,
        write_one-step (span_of address (length buf)) buf (contents d block) bytes c stored.0 d
            got.0 got.0 none (documented.finds (is_block block) keep c ∙ missing)
            (original_block-read block d got.0 (contents d) (disk.sized d block) got.1)
            (copy_to-spliced (address % 512) buf (contents d block)
              (omega (arith, disk.sized d block)))
            stored.1,
        got.2,
        stored.2,
        got.3,
      )

  pub write_one-cached :
      (address : ℕ) (buf : List ℕ) (c : C) (d : D) (e : CacheEntry)
      → address % 512 + length buf ≤ 512
      → first_match (is_block (address / 512)) (caches.iter c) ≡ some e
      → All (IsGood (contents d)) (caches.iter c)
      → (c' : C) × (write_one caches io 512 (span_of address (length buf)) buf c d ≡ some (c', d))
        × (caches.iter c'
            ≡ record {
              block = address / 512;
              bytes = spliced (address % 512) buf (contents d (address / 512));
              dirty = true;
            }
              ∷ remove_match (is_block (address / 512)) (caches.iter c))
  unfolding original_block
  write_one-cached address buf c d e within cached good =
      let block = address / 512 in
      let bytes = spliced (address % 512) buf (contents d block) in
      let c1 = (caches.find (is_block block) keep c).1 in
      let rest = remove_match (is_block block) (caches.iter c) in
      let here : e.block ≡ block =
        subst (IsOfBlock (contents d) block) cached
          (first_match-IsOfBlock (contents d) block (caches.iter c)) in
      let clean : IsGood (contents d) e =
        subst (IsGoodOption (contents d)) cached
          (All-first_match (contents d) (is_block block) (caches.iter c) good).0 in
      let whole : e.bytes ≡ contents d block = clean.1 ∙ ap (contents d) here in
      let matches : (e.block == block) ≡ true = (==_iff e.block block).1 here in
      let front : caches.iter c1 ≡ e ∷ rest =
        documented.iter_find (is_block block) keep c
        ∙ ap (λ o. put_front keep o (caches.iter c) rest) cached in
      let again : first_match (is_block block) (caches.iter c1) ≡ some e =
        ap (first_match (is_block block)) front ∙ rw matches refl in
      let removed : remove_match (is_block block) (caches.iter c1) ≡ rest =
        ap (remove_match (is_block block)) front ∙ rw matches refl in
      let r = caches.find (is_block block) (set_dirty bytes) c1 in
      (
        r.1,
        write_one-step (span_of address (length buf)) buf e.bytes bytes c r.1 d d d (some e)
            (documented.finds (is_block block) keep c ∙ cached) refl
            (ap (copy_to (address % 512) (address % 512 + length buf) buf) whole
              ∙ copy_to-spliced (address % 512) buf (contents d block)
                  (omega (arith, disk.sized d block)))
            (store_block-found block bytes r e d
              (documented.finds (is_block block) (set_dirty bytes) c1 ∙ again)),
        documented.iter_find (is_block block) (set_dirty bytes) c1
            ∙ ap
                (λ o.
                  put_front (set_dirty bytes) o (caches.iter c1)
                    (remove_match (is_block block) (caches.iter c1)))
                again
            ∙ ap (λ xs. set_dirty bytes e ∷ xs) removed
            ∙ ap (λ b. record { block = b; bytes = bytes; dirty = true } ∷ rest) here,
      )
