-- ===== src/Guest/MassStorage/Reading/Copies.antt =====
-- What a read copies to its buffer when one range is all that it needs.
use masters_sibren_wieme.Prelude.{
  ℕ, zero, suc, ◌≡◌, refl, ◌≤◌, ◌<◌, ◌+◌, ◌-◌, ◌*◌, ◌/◌, ◌%◌, true, ◌&&◌, some, List, [], ◌∷◌, ◌==◌,
  ==_refl, leb, length, take, drop, arith, sym, ◌∙◌, ap, append-nil,
}
use masters_sibren_wieme.Guest.MassStorage.Reading.Disk.{
  blocks_of, bytes_at, length-blocks_of, bytes_at-blocks_of,
}
use masters_sibren_wieme.Guest.MassStorage.{Span, bytes_between, copy_to, span_between, copy_range}

pub bytes_between-take :
    (start stop : ℕ) (xs : List ℕ)
    → start ≤ stop
    → stop ≤ length xs
    → bytes_between start stop xs ≡ some (take (stop - start) (drop start xs))
unfolding bytes_between
bytes_between-take start stop xs h k = ground arith

drop-length_self : (xs : List ℕ) → drop (length xs) xs ≡ []
drop-length_self [] = refl
drop-length_self (x ∷ xs) = drop-length_self xs

pub copy_to-whole :
    (bytes buf : List ℕ) → length bytes ≡ length buf → copy_to 0 (length buf) bytes buf ≡ some bytes
unfolding copy_to
copy_to-whole bytes buf h =
    let fits : ((leb 0 (length buf) && leb (length buf) (length buf))
          && (length bytes == length buf - 0))
        ≡ true =
      ground arith in
    rw (fits, drop-length_self buf, append-nil bytes) refl

-- The span of `n` bytes from `address` on.
abbrev pub span_of : ℕ → ℕ → Span
span_of address n = span_between 512 address (address + n)

pub length-bytes_at : (f : ℕ → List ℕ) (address n : ℕ) → length (bytes_at f address n) ≡ n
length-bytes_at f address zero = refl
length-bytes_at f address (suc n) = ap suc (length-bytes_at f (address + 1) n)

pub copy_range-whole :
    (address n : ℕ) (f : ℕ → List ℕ) (buf : List ℕ)
    → ((block : ℕ) → length (f block) ≡ 512)
    → 0 < n
    → length buf ≡ n
    → copy_range
        (span_of address n)
        (address / 512)
        ((address + n - 1) / 512 + 1)
        (blocks_of f (address / 512) ((address + n - 1) / 512 - address / 512 + 1))
        buf
      ≡ some (bytes_at f address n)
unfolding copy_range
copy_range-whole address n f buf sized filled long =
    let start = address / 512 in
    let num = (address + n - 1) / 512 - start + 1 in
    let stop = (num - 1) * 512 + ((address + n - 1) % 512 + 1) in
    let size : stop - address % 512 ≡ n = omega arith in
    let enough : address % 512 + n ≤ num * 512 = omega arith in
    let total : stop ≤ length (blocks_of f start num) =
      omega (arith, length-blocks_of f sized start num) in
    let at : start * 512 + address % 512 ≡ address = omega arith in
    rw
      (
        ==_refl start,
        ==_refl ((address + n - 1) / 512 + 1),
        bytes_between-take (address % 512) stop (blocks_of f start num) (omega arith) total,
        size,
        bytes_at-blocks_of f sized n start num (address % 512) enough,
        at,
      )
      (copy_to-whole (bytes_at f address n) buf (length-bytes_at f address n ∙ sym long))
