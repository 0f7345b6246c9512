-- ===== src/Guest/ReadAndHash/Slice/Seeking.antt =====
-- Where a slice can be, after any calls, and seeking from its end.
use masters_sibren_wieme.Prelude.{
  ℕ, ◌≡◌, ◌≢◌, refl, ◌≤◌, ◌<◌, ◌+◌, ◌-◌, ◌%◌, ◌^◌, min, ◌||◌, Option, Option-cases, none, some,
  List, [], ◌∷◌, leb, ltb, length, arith, subst, ap, lt→ltb, Bool-cases, inl, inr,
}
use masters_sibren_wieme.Prelude.Int.{ℤ, pos, negsuc, neg_part}
use masters_sibren_wieme.Guest.BulkOnly.{◌>>=◌}
use masters_sibren_wieme.Guest.ReadAndHash.Data.{
  Outcome, returned, failed, panicked, bound, IoError, invalid_input, SeekFrom, start_of, end_of,
  ReadSeek,
}
use masters_sibren_wieme.Guest.ReadAndHash.Slice.{
  IoSlice, new, read, seek, target, with_inner, on_inner, advance,
}

-- The calls of a client.
pub data Call : Type 0 where
  read_of : ℕ → Call
  seek_of : SeekFrom → Call

abbrev pub left : {T A : Type 0} → Outcome IoError (IoSlice T) A → Option (IoSlice T)
left (returned a s) = some s
left (failed e s) = some s
left panicked = none

-- What a trait `Read` promises: no more bytes than the buffer holds.
abbrev pub IsBounded : {T : Type 0} → ℕ → Outcome IoError T (List ℕ) → Type 0
IsBounded n (returned bytes t) = length bytes ≤ n
IsBounded n (failed e t) = Unit {0}
IsBounded n panicked = Unit {0}

-- A slice of some range, at a position of it.
pub record Within {T : Type 0} (start end : ℕ) (s : IoSlice T) : Type 0 where
  pub starts : s.start ≡ start
  pub ends : s.end ≡ end
  pub low : start ≤ s.position
  pub high : s.position ≤ end

abbrev AllWithin : {T A : Type 0} → ℕ → ℕ → Outcome IoError (IoSlice T) A → Type 0
AllWithin start end (returned a s) = Within start end s
AllWithin start end (failed e s) = Within start end s
AllWithin start end panicked = Unit {0}

module _ {T : Type 0} (start end : ℕ) where
  advance-Within :
      (o : Outcome IoError T (List ℕ)) (k : ℕ) (s : IoSlice T)
      → IsBounded k o
      → s.position + k ≤ end
      → end < 2 ^ 64
      → Within start end s
      → AllWithin start end (bound (with_inner s o) advance)
  advance-Within (returned bytes t) k s few room small h = record {
    starts = h.starts;
    ends = h.ends;
    low = omega (arith, h.low, few);
    high = omega (arith, h.low, few);
  }
  advance-Within (failed e t) k s few room small h = record {
    starts = h.starts;
    ends = h.ends;
    low = h.low;
    high = h.high;
  }
  advance-Within panicked k s few room small h = tt

  offset-Within :
      (o : Outcome IoError T ℕ) (n : ℕ) (s : IoSlice T)
      → Within start end s
      → AllWithin start end (bound (with_inner s o) (λ _ s1. returned n s1))
  offset-Within (returned q t) n s h = record {
    starts = h.starts;
    ends = h.ends;
    low = h.low;
    high = h.high;
  }
  offset-Within (failed e t) n s h = record {
    starts = h.starts;
    ends = h.ends;
    low = h.low;
    high = h.high;
  }
  offset-Within panicked n s h = tt

  left-Within :
      {A : Type 0} (o : Outcome IoError (IoSlice T) A) (s' : IoSlice T)
      → AllWithin start end o
      → left o ≡ some s'
      → Within start end s'
  left-Within (returned a s) s' h e = subst (Within start end) (cc) h
  left-Within (failed x s) s' h e = subst (Within start end) (cc) h
  left-Within panicked s' h e = absurd (cc)

module _ {T : Type 0} (m : ReadSeek T) (start end : ℕ) (small : end < 2 ^ 64)
    (bounded : (n : ℕ) (t : T) → IsBounded n (m.read n t)) where
  read_there-Within :
      (o : Outcome IoError T ℕ) (k : ℕ) (s : IoSlice T)
      → s.position + k ≤ end
      → Within start end s
      → AllWithin start end
          (bound (with_inner s o) (λ _ s1. bound (on_inner (m.read k) s1) advance))
  read_there-Within (returned q t) k s room h =
      advance-Within start end (m.read k t) k (record s { inner = t }) (bounded k t) room small
        (record { starts = h.starts; ends = h.ends; low = h.low; high = h.high })
  read_there-Within (failed e t) k s room h = record {
    starts = h.starts;
    ends = h.ends;
    low = h.low;
    high = h.high;
  }
  read_there-Within panicked k s room h = tt

  read-Within : (n : ℕ) (s : IoSlice T) → Within start end s → AllWithin start end (read m n s)
  unfolding read
  read-Within n s h = elim (Bool-cases (leb s.end s.position)) [
    | inl over ↦ rw over h
    | inr more ↦ rw more (
        read_there-Within (m.seek (start_of s.position) s.inner)
          (min (s.end - s.position) n % 2 ^ 32) s (omega (arith, h.ends, h.high)) h)
  ]

  seek-Within :
      (to : SeekFrom) (s : IoSlice T) → Within start end s → AllWithin start end (seek m to s)
  unfolding seek
  seek-Within to s h = elim (Bool-cases (ltb (target to s) s.start || ltb s.end (target to s))) [
    | inl outside ↦ rw outside h
    | inr inside ↦ rw inside (
        offset-Within start end (m.seek (start_of (target to s)) s.inner) (target to s - s.start)
          (record s { position = target to s })
          (record {
            starts = h.starts;
            ends = h.ends;
            low = ground (arith, h.starts);
            high = ground (arith, h.ends);
          }))
  ]

module _ {T : Type 0} (m : ReadSeek T) where
  abbrev pub call : Call → IoSlice T → Option (IoSlice T)
  call (read_of n) s = left (read m n s)
  call (seek_of to) s = left (seek m to s)

  -- The slice after some calls, whether they succeed or fail; `none` if one panics.
  abbrev pub calls : List Call → IoSlice T → Option (IoSlice T)
  calls [] s = some s
  calls (c ∷ cs) s = call c s >>= calls cs

module _ {T : Type 0} (m : ReadSeek T) (start end : ℕ) (small : end < 2 ^ 64)
    (bounded : (n : ℕ) (t : T) → IsBounded n (m.read n t)) where
  call-Within :
      (c : Call) (s s' : IoSlice T)
      → Within start end s
      → call m c s ≡ some s'
      → Within start end s'
  call-Within (read_of n) s s' h e =
      left-Within start end (read m n s) s' (read-Within m start end small bounded n s h) e
  call-Within (seek_of to) s s' h e =
      left-Within start end (seek m to s) s' (seek-Within m start end small bounded to s h) e

  calls-Within_from :
      (cs : List Call) (s s' : IoSlice T)
      → Within start end s
      → calls m cs s ≡ some s'
      → Within start end s'
  calls-Within_from [] s s' h e = subst (Within start end) (cc) h
  calls-Within_from (c ∷ cs) s s' h e = elim (Option-cases (call m c s)) [
    | inl panic ↦ absurd (none-ne-some (simp panic at e))
    | inr (s1, first) ↦ calls-Within_from cs s1 s' (call-Within c s s1 h first) (simp first at e)
  ]
    where
      none-ne-some : ◌≡◌ {A = Option (IoSlice T)} none (some s') → ⊥
      none-ne-some q = cc

  -- After any reads and seeks of a new slice that do not panic, whether they succeed or fail, the position
  -- is in its range, which is as it was, if what it reads from puts no more bytes into a buffer than it
  -- holds.
  pub calls-Within :
      (inner : T) (cs : List Call) (s s' : IoSlice T)
      → new inner start end ≡ some s
      → calls m cs s ≡ some s'
      → Within start end s'
  unfolding new
  calls-Within inner cs s s' made after = elim (Bool-cases (leb end start)) [
    | inl empty ↦ absurd (none-ne-some (simp empty at made))
    | inr proper ↦
        let first : record { inner = inner; start = start; end = end; position = start } ≡ s =
          some-injective (simp proper at made) in
        calls-Within_from cs s s'
          (subst (Within start end) first
            (record { starts = refl; ends = refl; low = omega arith; high = ground arith }))
          after
  ]
    where
      none-ne-some : ◌≡◌ {A = Option (IoSlice T)} none (some s) → ⊥
      none-ne-some q = cc

      some-injective : {x y : IoSlice T} → some x ≡ some y → x ≡ y
      some-injective q = cc

seek-beyond :
    {T : Type 0} (m : ReadSeek T) (to : SeekFrom) (s : IoSlice T)
    → s.end < target to s
    → seek m to s ≡ failed invalid_input s
unfolding seek
seek-beyond m to s h =
    let behind = lt→ltb s.end (target to s) h in
    elim (Bool-cases (ltb (target to s) s.start)) [
      | inl before ↦ rw before refl
      | inr after ↦ rw (after, behind) refl
    ]

-- Seeking from the end of a slice that ends before the byte 2^64 - 1 fails for every i64 offset but
-- zero, also for one that leads into the slice, and leaves the slice as it was.
pub seek-end_of :
    {T : Type 0} (m : ReadSeek T) (offset : ℤ) (s : IoSlice T)
    → offset ≢ pos 0
    → neg_part offset ≤ 2 ^ 63
    → s.end < 2 ^ 64 - 1
    → seek m (end_of offset) s ≡ failed invalid_input s
unfolding target
seek-end_of m (pos n) s nonzero range small =
    let some' : n ≢ 0 = λ e. nonzero (ap pos e) in
    seek-beyond m (end_of (pos n)) s (omega (arith, some'))
seek-end_of m (negsuc n) s nonzero range small = seek-beyond m (end_of (negsuc n)) s (omega arith)
