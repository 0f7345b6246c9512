-- ===== src/Guest/ReadAndHash/Slice.antt =====
-- usb-wasi-guest/examples/read_and_hash.rs, IoSlice: the window of a partition on what it reads from.
pub mod Window
pub mod Seeking
use masters_sibren_wieme.Prelude.{
  ℕ, ◌+◌, ◌-◌, ◌%◌, ◌^◌, min, ◌||◌, Option, none, some, List, [], ◌++◌, leb, ltb, if◌then◌else◌,
  length, ◌∷◌,
}
use masters_sibren_wieme.Guest.ReadAndHash.Data.{
  Outcome, returned, failed, panicked, ◌>>=◌, IoError, invalid_input, SeekFrom, start_of, end_of,
  current, ReadSeek, saturating_add, as_u64, saturating_add_signed,
}

pub record IoSlice (T : Type 0) : Type 0 where
  pub inner : T
  pub start : ℕ  -- u64
  pub end : ℕ  -- u64
  pub position : ℕ  -- u64

module _ {T : Type 0} where
  -- `none` is the error for a range with no bytes.
  unfoldable pub new : T → ℕ → ℕ → Option (IoSlice T)
  new inner start end =
      if leb end start
      then none
      else some (record { inner = inner; start = start; end = end; position = start })

  -- A call on what the slice reads from.
  abbrev pub with_inner :
      {A : Type 0} → IoSlice T → Outcome IoError T A → Outcome IoError (IoSlice T) A
  with_inner s (returned a t) = returned a (record s { inner = t })
  with_inner s (failed e t) = failed e (record s { inner = t })
  with_inner s panicked = panicked

  abbrev pub on_inner :
      {A : Type 0} → (T → Outcome IoError T A) → IoSlice T → Outcome IoError (IoSlice T) A
  on_inner call s = with_inner s (call s.inner)

  abbrev pub advance : List ℕ → IoSlice T → Outcome IoError (IoSlice T) (List ℕ)
  advance bytes s = returned bytes (record s { position = (s.position + length bytes) % 2 ^ 64 })

  abbrev pub move_to : ℕ → IoSlice T → Outcome IoError (IoSlice T) (Unit {0})
  move_to position s = returned tt (record s { position = position })

  -- `new_pos`
  unfoldable pub target : SeekFrom → IoSlice T → ℕ
  target (start_of offset) s = (s.start + offset) % 2 ^ 64
  target (end_of offset) s = saturating_add s.end (as_u64 offset)
  target (current offset) s = saturating_add_signed s.position offset

  module _ (m : ReadSeek T) where
    unfoldable pub read : ℕ → IoSlice T → Outcome IoError (IoSlice T) (List ℕ)
    read n s =
        let max_bytes = min (s.end - s.position) n % 2 ^ 32 in
        if leb s.end s.position
        then returned [] s
        else (do
          _ ← on_inner (m.seek (start_of s.position))
          bytes ← on_inner (m.read max_bytes)
          advance bytes)
            s

    unfoldable pub seek : SeekFrom → IoSlice T → Outcome IoError (IoSlice T) ℕ
    seek pos s =
        let new_pos = target pos s in
        if ltb new_pos s.start || ltb s.end new_pos
        then failed invalid_input s
        else (do
          _ ← move_to new_pos
          _ ← on_inner (m.seek (start_of new_pos))
          returned (new_pos - s.start))
            s

    -- Reads into buffers one after the other.
    abbrev pub reads : List ℕ → IoSlice T → Outcome IoError (IoSlice T) (List ℕ)
    reads [] s = returned [] s
    reads (n ∷ ns) s = (do bytes ← read n; rest ← reads ns; returned (bytes ++ rest)) s
