-- ===== src/Guest/ReadAndHash/Slice/Window.antt =====
-- Reads of a slice against the bytes of its window.
use masters_sibren_wieme.Prelude.{
  ℕ, zero, suc, ◌≡◌, refl, ◌≤◌, ◌<◌, ◌+◌, ◌-◌, ◌%◌, ◌^◌, min, false, List, [], ◌∷◌, ◌++◌, leb,
  length, get_or, ◌/◌, arith, sym, ap, ◌∙◌, Bool-cases, inl, inr, All,
}
use masters_sibren_wieme.Guest.MassStorage.Reading.Disk.{bytes_at}
use masters_sibren_wieme.Guest.ReadAndHash.Data.{returned, ReadSeek, start_of}
use masters_sibren_wieme.Guest.ReadAndHash.Slice.{IoSlice, read, reads}

-- What a slice relies on: at every position up to `size`, a read of at most `most` bytes gives the bytes
-- of `f` and moves behind them. `At p t` says that t is at the position p.
pub record IsReadable {T : Type 0} (m : ReadSeek T) (f : ℕ → List ℕ) (size most : ℕ)
    (At : ℕ → T → Type 0) : Type 0 where
  pub seeks :
      (p q : ℕ) (t : T)
      → At p t
      → q ≤ size
      → (t' : T) × (m.seek (start_of q) t ≡ returned q t') × At q t'
  pub reads :
      (p n : ℕ) (t : T)
      → At p t
      → p + n ≤ size
      → n ≤ most
      → (t' : T) × (m.read n t ≡ returned (bytes_at f p n) t') × At (p + n) t'

pub length-bytes_at : (f : ℕ → List ℕ) (p n : ℕ) → length (bytes_at f p n) ≡ n
length-bytes_at f p zero = refl
length-bytes_at f p (suc n) = ap suc (length-bytes_at f (p + 1) n)

pub bytes_at-append :
    (f : ℕ → List ℕ) (p m n : ℕ) → bytes_at f p (m + n) ≡ bytes_at f p m ++ bytes_at f (p + m) n
bytes_at-append f p zero n =
    let e : p + 0 ≡ p = omega arith in let e' : 0 + n ≡ n = omega arith in rw (e, e') refl
bytes_at-append f p (suc m) n =
    let e : suc m + n ≡ suc (m + n) = omega arith in
    let e' : p + suc m ≡ p + 1 + m = omega arith in
    rw (e, e') (ap (◌∷◌ (get_or (f (p / 512)) (p % 512) 0)) (bytes_at-append f (p + 1) m n))

abbrev pub sum : List ℕ → ℕ
sum [] = 0
sum (n ∷ ns) = n + sum ns

module _ {T : Type 0} (m : ReadSeek T) (f : ℕ → List ℕ) (size most : ℕ) (At : ℕ → T → Type 0)
    (readable : IsReadable m f size most At) (small : size < 2 ^ 64) (short : most < 2 ^ 32) where
  -- A slice at a position of its window, on something that can be read.
  pub record IsOpen (start end position : ℕ) (s : IoSlice T) : Type 0 where
    pub starts : s.start ≡ start
    pub ends : s.end ≡ end
    pub here : s.position ≡ position
    pub inner_position : ℕ
    pub inner_at : At inner_position s.inner

  read-inner :
      (n k q : ℕ) (s : IoSlice T) (bytes : List ℕ) (t1 t2 : T)
      → leb s.end s.position ≡ false
      → min (s.end - s.position) n % 2 ^ 32 ≡ k
      → m.seek (start_of s.position) s.inner ≡ returned q t1
      → m.read k t1 ≡ returned bytes t2
      → read m n s
        ≡ returned bytes (record s { inner = t2; position = (s.position + length bytes) % 2 ^ 64 })
  unfolding read
  read-inner n k q s bytes t1 t2 more amount sought got = rw (more, amount, sought, got) refl

  read-window :
      (start end p n : ℕ) (s : IoSlice T)
      → IsOpen start end p s
      → p ≤ end
      → end ≤ size
      → n ≤ most
      → (s' : IoSlice T) × (read m n s ≡ returned (bytes_at f p (min n (end - p))) s')
        × IsOpen start end (p + min n (end - p)) s'
  unfolding read
  read-window start end p n s open' low inside few =
      let k = min n (end - p) in
      elim (Bool-cases (leb s.end s.position)) [
        | inl over ↦
            let empty : k ≡ 0 = ground arith in
            let here : p + 0 ≡ p = omega arith in (s, rw (over, empty) refl, rw (empty, here) open')
        | inr more ↦
            let amount : min (s.end - s.position) n % 2 ^ 32 ≡ k =
              omega (arith, open'.ends, open'.here) in
            let (t1, sought, at1) =
              readable.seeks open'.inner_position s.position s.inner open'.inner_at
                (omega (arith, open'.here)) in
            let (t2, got, at2) =
              readable.reads s.position k t1 at1 (omega (arith, open'.here)) (omega arith) in
            let size_of = length-bytes_at f s.position k in
            (
              record s {
                inner = t2;
                position = (s.position + length (bytes_at f s.position k)) % 2 ^ 64;
              },
              read-inner n k s.position s (bytes_at f s.position k) t1 t2 more amount sought got
                  ∙ ap
                      (λ (q : ℕ). returned (bytes_at f q k) (record s {
                        inner = t2;
                        position = (s.position + length (bytes_at f s.position k)) % 2 ^ 64;
                      }))
                      open'.here,
              record {
                starts = open'.starts;
                ends = open'.ends;
                here = omega (arith, open'.here, size_of);
                inner_position = s.position + k;
                inner_at = at2;
              },
            )
      ]

  -- Reads one after the other give the bytes of the window from its position on, to its end.
  pub reads-window :
      (start end p : ℕ) (ns : List ℕ) (s : IoSlice T)
      → IsOpen start end p s
      → p ≤ end
      → end ≤ size
      → All (λ n. n ≤ most) ns
      → (s' : IoSlice T) × (reads m ns s ≡ returned (bytes_at f p (min (sum ns) (end - p))) s')
        × IsOpen start end (p + min (sum ns) (end - p)) s'
  reads-window start end p [] s open' low inside few =
      let empty : min 0 (end - p) ≡ 0 = omega arith in
      let here : p + 0 ≡ p = omega arith in (s, rw empty refl, rw (empty, here) open')
  reads-window start end p (n ∷ ns) s open' low inside few =
      let k = min n (end - p) in
      let (s1, first, open1) = read-window start end p n s open' low inside few.0 in
      let (s2, rest, open2) =
        reads-window start end (p + k) ns s1 open1 (omega arith) inside few.1 in
      let all : min (n + sum ns) (end - p) ≡ k + min (sum ns) (end - (p + k)) = omega arith in
      let behind : p + (k + min (sum ns) (end - (p + k))) ≡ p + k + min (sum ns) (end - (p + k)) =
        omega arith in
      (
        s2,
        rw (first, rest, all)
            (ap (λ xs. returned xs s2)
              (sym (bytes_at-append f p k (min (sum ns) (end - (p + k)))))),
        rw (all, behind) open2,
      )
