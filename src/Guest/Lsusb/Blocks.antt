-- ===== src/Guest/Lsusb/Blocks.antt =====
-- The listing of a block of descriptors, against the descriptors that it was put together from.
use masters_sibren_wieme.Prelude.{
  ℕ, zero, suc, ◌≡◌, ◌≤◌, ◌<◌, ◌+◌, ◌*◌, true, false, some, List, [], ◌∷◌, ◌++◌, ◌==◌, refl, ltb,
  length, get_elem?, get_or, arith, length-append, append_assoc, All, sym, ap, lt→ltb, le→ltb_false,
  ◌∙◌,
}
use masters_sibren_wieme.Guest.Lsusb.{
  Line, interface_line, endpoint_line, Listing, printed, preceded, lines_of, step_of, round_at,
  walk, list_configuration,
}

-- A descriptor that is not too short for its fields, with the bytes behind those that the program
-- knows.
pub data Descriptor : Type 0 where
  interface : (iface alt epcnt : ℕ) → List ℕ → Descriptor
  endpoint : (addr attrs low high interval : ℕ) → List ℕ → Descriptor
  other : (dtype : ℕ) → List ℕ → Descriptor

abbrev pub IsNamed : Descriptor → Type 0
IsNamed (interface iface alt epcnt rest) = Unit {0}
IsNamed (endpoint addr attrs low high interval rest) = Unit {0}
IsNamed (other dtype rest) = ((dtype == 4) ≡ false) × ((dtype == 5) ≡ false)

-- Its bytes, the first of which is how many they are.
abbrev pub bytes_of : Descriptor → List ℕ
bytes_of (interface iface alt epcnt rest) = (5 + length rest) ∷ 4 ∷ iface ∷ alt ∷ epcnt ∷ rest
bytes_of (endpoint addr attrs low high interval rest) =
    (7 + length rest) ∷ 5 ∷ addr ∷ attrs ∷ low ∷ high ∷ interval ∷ rest
bytes_of (other dtype rest) = (2 + length rest) ∷ dtype ∷ rest

abbrev pub line_of : Descriptor → List Line
line_of (interface iface alt epcnt rest) = interface_line iface alt epcnt ∷ []
line_of (endpoint addr attrs low high interval rest) =
    endpoint_line addr attrs (low + 256 * high) interval ∷ []
line_of (other dtype rest) = []

-- Descriptors, and bytes behind them.
abbrev pub block_of : List Descriptor → List ℕ → List ℕ
block_of [] tail = tail
block_of (d ∷ ds) tail = bytes_of d ++ block_of ds tail

-- Fewer bytes than their first one says, or than two.
abbrev pub IsCut : List ℕ → Type 0
IsCut [] = Unit {0}
IsCut (len ∷ []) = Unit {0}
IsCut (len ∷ dtype ∷ rest) = 2 + length rest < len

abbrev pub all_lines : List Descriptor → List Line
all_lines [] = []
all_lines (d ∷ ds) = line_of d ++ all_lines ds

zero_add : (k : ℕ) → 0 + k ≡ k
zero_add k = omega arith

suc_add : (n k : ℕ) → suc n + k ≡ suc (n + k)
suc_add n k = omega arith

get_elem?-append :
    (pre xs : List ℕ) (k : ℕ) → get_elem? (pre ++ xs) (length pre + k) ≡ get_elem? xs k
get_elem?-append [] xs k = ap (get_elem? xs) (zero_add k)
get_elem?-append (x ∷ pre) xs k =
    ap (get_elem? (x ∷ (pre ++ xs))) (suc_add (length pre) k) ∙ get_elem?-append pre xs k

get_or-append : (pre xs : List ℕ) (k : ℕ) → get_or (pre ++ xs) (length pre + k) 0 ≡ get_or xs k 0
get_or-append [] xs k = ap (λ i. get_or xs i 0) (zero_add k)
get_or-append (x ∷ pre) xs k =
    ap (λ i. get_or (x ∷ (pre ++ xs)) i 0) (suc_add (length pre) k) ∙ get_or-append pre xs k

get_or-append_head :
    (pre : List ℕ) (x : ℕ) (xs : List ℕ) → get_or (pre ++ (x ∷ xs)) (length pre) 0 ≡ x
get_or-append_head [] x xs = refl
get_or-append_head (y ∷ pre) x xs = get_or-append_head pre x xs

lines_of-bytes_of :
    (pre : List ℕ) (d : Descriptor) (post : List ℕ)
    → IsNamed d
    → lines_of (pre ++ (bytes_of d ++ post)) (length pre) (get_or (bytes_of d) 1 0)
      ≡ some (line_of d)
unfolding lines_of
lines_of-bytes_of pre (interface iface alt epcnt rest) post named =
    rw (get_elem?-append pre _ 2, get_elem?-append pre _ 3, get_elem?-append pre _ 4)
lines_of-bytes_of pre (endpoint addr attrs low high interval rest) post named = rw (
  get_elem?-append pre _ 2,
  get_elem?-append pre _ 3,
  get_elem?-append pre _ 4,
  get_elem?-append pre _ 5,
  get_elem?-append pre _ 6,
)
lines_of-bytes_of pre (other dtype rest) post named = rw (named.0, named.1)

length-bytes_of : (d : Descriptor) → get_or (bytes_of d) 0 0 ≡ length (bytes_of d)
length-bytes_of (interface iface alt epcnt rest) = omega arith
length-bytes_of (endpoint addr attrs low high interval rest) = omega arith
length-bytes_of (other dtype rest) = omega arith

bytes_of-long : (d : Descriptor) → 2 ≤ length (bytes_of d)
bytes_of-long (interface iface alt epcnt rest) = omega arith
bytes_of-long (endpoint addr attrs low high interval rest) = omega arith
bytes_of-long (other dtype rest) = omega arith

get_or-head :
    (pre : List ℕ) (d : Descriptor) (post : List ℕ)
    → get_or (pre ++ (bytes_of d ++ post)) (length pre) 0 ≡ length (bytes_of d)
get_or-head pre (interface iface alt epcnt rest) post =
    get_or-append_head pre _ _ ∙ length-bytes_of (interface iface alt epcnt rest)
get_or-head pre (endpoint addr attrs low high interval rest) post =
    get_or-append_head pre _ _ ∙ length-bytes_of (endpoint addr attrs low high interval rest)
get_or-head pre (other dtype rest) post =
    get_or-append_head pre _ _ ∙ length-bytes_of (other dtype rest)

get_or-dtype :
    (pre : List ℕ) (d : Descriptor) (post : List ℕ)
    → get_or (pre ++ (bytes_of d ++ post)) (length pre + 1) 0 ≡ get_or (bytes_of d) 1 0
get_or-dtype pre (interface iface alt epcnt rest) post = get_or-append pre _ 1
get_or-dtype pre (endpoint addr attrs low high interval rest) post = get_or-append pre _ 1
get_or-dtype pre (other dtype rest) post = get_or-append pre _ 1

step_of-add : (a len : ℕ) → 2 ≤ len → a + step_of len ≡ a + len
step_of-add a len long = ground arith

-- A round at a descriptor shows its line, and goes on behind it.
round_at-bytes_of :
    (go : ℕ → Listing) (pre : List ℕ) (d : Descriptor) (post : List ℕ)
    → IsNamed d
    → round_at go (length pre) (pre ++ (bytes_of d ++ post))
      ≡ preceded (line_of d) (go (length (pre ++ bytes_of d)))
unfolding round_at
round_at-bytes_of go pre d post named = rw (
  get_or-head pre d post,
  get_or-dtype pre d post,
  lines_of-bytes_of pre d post named,
  inside,
  whole,
  next,
)
  where
    size : length (pre ++ (bytes_of d ++ post)) ≡ length pre + (length (bytes_of d) + length post)
    size = omega (arith, length-append pre (bytes_of d ++ post), length-append (bytes_of d) post)

    inside : ltb (length pre + 1) (length (pre ++ (bytes_of d ++ post))) ≡ true
    inside = lt→ltb _ _ (omega (arith, size, bytes_of-long d))

    whole : ltb (length (pre ++ (bytes_of d ++ post))) (length pre + length (bytes_of d)) ≡ false
    whole = le→ltb_false _ _ (omega (arith, size))

    next : length pre + step_of (length (bytes_of d)) ≡ length (pre ++ bytes_of d)
    next =
        step_of-add (length pre) (length (bytes_of d)) (bytes_of-long d)
        ∙ sym (length-append pre (bytes_of d))

-- The loop leaves such bytes alone.
round_at-IsCut :
    (go : ℕ → Listing) (pre tail : List ℕ)
    → IsCut tail
    → round_at go (length pre) (pre ++ tail) ≡ printed []
unfolding round_at
round_at-IsCut go pre [] cut =
    rw (le→ltb_false (length pre + 1) (length (pre ++ [])) (omega (arith, length-append pre [])))
round_at-IsCut go pre (len ∷ []) cut = rw (
    le→ltb_false (length pre + 1) (length (pre ++ (len ∷ [])))
      (omega (arith, length-append pre (len ∷ []))))
round_at-IsCut go pre (len ∷ dtype ∷ rest) cut = rw (
  get_or-append_head pre len (dtype ∷ rest),
  lt→ltb (length pre + 1) (length (pre ++ (len ∷ dtype ∷ rest))) (omega (arith, size)),
  lt→ltb (length (pre ++ (len ∷ dtype ∷ rest))) (length pre + len) (omega (arith, size)),
)
  where
    size : length (pre ++ (len ∷ dtype ∷ rest)) ≡ length pre + (2 + length rest)
    size = omega (arith, length-append pre (len ∷ dtype ∷ rest))

walk-block_of :
    (ds : List Descriptor) (tail : List ℕ) (rounds : ℕ) (pre : List ℕ)
    → All IsNamed ds
    → IsCut tail
    → length ds < rounds
    → walk rounds (length pre) (pre ++ block_of ds tail) ≡ printed (all_lines ds)
unfolding walk
walk-block_of ds tail zero pre named cut enough = absurd (omega arith)
walk-block_of [] tail (suc rounds) pre named cut enough =
    round_at-IsCut (λ j. walk rounds j (pre ++ tail)) pre tail cut
walk-block_of (d ∷ ds) tail (suc rounds) pre named cut enough =
    round_at-bytes_of (λ j. walk rounds j (pre ++ block_of (d ∷ ds) tail)) pre d (block_of ds tail)
      named.0
    ∙ rw (
      sym (append_assoc pre (bytes_of d) (block_of ds tail)),
      walk-block_of ds tail rounds (pre ++ bytes_of d) named.1 cut (omega arith),
    )

-- Nine bytes, then any descriptors of which each begins with its length and its type, where those of
-- interfaces have five bytes at least, those of endpoints seven, and the others two, then perhaps the
-- beginning of one that is cut off, are listed, in one round more than there are whole descriptors,
-- with one line for each whole descriptor of an interface or of an endpoint, which has its fields, in
-- their order, and none for the others.
pub list_configuration-block_of :
    (header : List ℕ) (ds : List Descriptor) (tail : List ℕ) (rounds : ℕ)
    → length header ≡ 9
    → All IsNamed ds
    → IsCut tail
    → length ds < rounds
    → list_configuration rounds (header ++ block_of ds tail) ≡ printed (all_lines ds)
list_configuration-block_of header ds tail rounds nine named cut enough =
    rw (sym nine, walk-block_of ds tail rounds header named cut enough)
