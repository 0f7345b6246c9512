-- ===== src/Bench/Bulk/Tests.antt =====
-- A disk of 1024 blocks of 512 bytes behind a transport, and a measurement of two iterations on it.
use masters_sibren_wieme.Prelude.{
  ℕ, zero, suc, ◌≡◌, refl, ◌≤◌, ◌<◌, ◌+◌, ◌-◌, ◌*◌, ◌^◌, Bool, true, ◌&&◌, Option, none, some, List,
  [], ◌∷◌, ◌++◌, map, ◌==◌, ltb, leb, if◌then◌else◌, length, take, drop, get_or, arith, ap, ◌∙◌,
  sym, replicate, length-take, length-append, length-replicate, take-append_self, Bool-cases, inl,
  inr,
}
use masters_sibren_wieme.Guest.MassStorage.Blocks.{be_bytes-value}
use masters_sibren_wieme.Guest.MassStorage.Reading.Disk.{blocks_of}
use masters_sibren_wieme.Bench.Csv.{Row, open_log}
use masters_sibren_wieme.Bench.Csv.Reader.{read_csv}
use masters_sibren_wieme.Bench.Csv.RoundTrip.{header_names, row_values}
use masters_sibren_wieme.Guest.BulkOnly.Bytes.{be_bytes}
use masters_sibren_wieme.Bench.Scsi.{BulkTransport, IsDisk, cdb}
use masters_sibren_wieme.Bench.Bulk.{
  read_write_mode, Config, Sample, State, choose_lba, run_benchmark,
}
use masters_sibren_wieme.Bench.Bulk.Runs.{summary, numbered, run_benchmark-keeps, choose_lba-inside}

abbrev Blocks : Type 0
Blocks = ℕ → List ℕ

abbrev lba_in : List ℕ → ℕ
lba_in c = 2 ^ 24 * get_or c 2 0 + 2 ^ 16 * get_or c 3 0 + 2 ^ 8 * get_or c 4 0 + get_or c 5 0

abbrev count_in : List ℕ → ℕ
count_in c = 2 ^ 8 * get_or c 7 0 + get_or c 8 0

-- The bytes of a block, filled up with zeros.
abbrev padded : List ℕ → List ℕ
padded bytes = take 512 (bytes ++ replicate 512 0)

abbrev blocks_in : Blocks → Blocks
blocks_in s k = padded (s k)

abbrev answer : List ℕ → Blocks → List ℕ
answer c s =
    if get_or c 0 0 == 0x25
    then be_bytes 1023 ++ be_bytes 512
    else blocks_of (blocks_in s) (lba_in c) (count_in c)

abbrev put : ℕ → ℕ → List ℕ → Blocks → Blocks
put lba n bytes s k =
    if leb lba k && ltb k (lba + n) then take 512 (drop ((k - lba) * 512) bytes) else s k

abbrev take_in : List ℕ → Option (List ℕ) → Blocks → Bool × Blocks
take_in c none s = (true, s)
take_in c (some bytes) s = (true, put (lba_in c) (count_in c) bytes s)

abbrev stick : BulkTransport Blocks
stick = record { command_in = λ c n s. (some (answer c s), s); command_out = take_in }

drop-append_add : (xs ys : List ℕ) (m n : ℕ) → n ≡ length xs + m → drop n (xs ++ ys) ≡ drop m ys
drop-append_add [] ys m n e = ap (λ k. drop k ys) (omega (arith, e))
drop-append_add (x ∷ xs) ys m zero e = absurd (omega (arith, e))
drop-append_add (x ∷ xs) ys m (suc n) e = drop-append_add xs ys m n (omega (arith, e))

take-append_length : (xs ys : List ℕ) → length xs ≡ 512 → take 512 (xs ++ ys) ≡ xs
take-append_length xs ys e = ap (λ n. take n (xs ++ ys)) (sym e) ∙ take-append_self xs ys

block_in :
    (g : ℕ → List ℕ)
    → ((k : ℕ) → length (g k) ≡ 512)
    → (lba n i : ℕ) → i < n
    → take 512 (drop (i * 512) (blocks_of g lba n)) ≡ g (lba + i)
block_in g sized lba zero i h = absurd (omega arith)
block_in g sized lba (suc n) zero h =
    take-append_length (g lba) (blocks_of g (lba + 1) n) (sized lba) ∙ ap g (omega arith)
block_in g sized lba (suc n) (suc i) h =
    ap (take 512) (
      drop-append_add (g lba) (blocks_of g (lba + 1) n) (i * 512) (suc i * 512)
        (omega (arith, sized lba)))
    ∙ block_in g sized (lba + 1) n i (omega arith)
    ∙ ap g (omega arith)

put-blocks_of :
    (g s : ℕ → List ℕ)
    → ((k : ℕ) → length (g k) ≡ 512)
    → (lba n k : ℕ)
    → put lba n (blocks_of g lba n) s k ≡ (if leb lba k && ltb k (lba + n) then g k else s k)
put-blocks_of g s sized lba n k = elim (Bool-cases (leb lba k && ltb k (lba + n))) [
  | inl inside ↦
      let low : lba ≤ k = ground arith in
      let high : k < lba + n = ground arith in
      let there : lba + (k - lba) ≡ k = omega arith in
      rw inside (block_in g sized lba n (k - lba) (omega arith) ∙ ap g there)
  | inr outside ↦ rw outside refl
]

-- Every state is ready.
abbrev IsAny : Blocks → Type 0
IsAny s = Unit {0}

stick-IsDisk : IsDisk stick blocks_in 512 1024 IsAny
stick-IsDisk = record {
  sized = λ s k. omega (
    arith,
    length-take 512 (s k ++ replicate 512 0),
    length-append (s k) (replicate 512 0),
    length-replicate {A = ℕ} 512 0,
  );
  tests = λ s ready. (λ k. refl, tt);
  tells = λ s ready. (s, refl, λ k. refl, tt);
  reads = λ lba n s ready few inside.
      let e : lba_in (cdb 0x28 lba n) ≡ lba = be_bytes-value lba (omega arith) in
      let e' : count_in (cdb 0x28 lba n) ≡ n = omega arith in
      (
        s,
        ap (λ (a : ℕ). (some (blocks_of (blocks_in s) a (count_in (cdb 0x28 lba n))), s)) e
            ∙ ap (λ (c : ℕ). (some (blocks_of (blocks_in s) lba c), s)) e',
        λ k. refl,
        tt,
      );
  writes = λ lba n g s ready few inside sized.
      let bytes = blocks_of g lba n in
      let e : lba_in (cdb 0x2A lba n) ≡ lba = be_bytes-value lba (omega arith) in
      let e' : count_in (cdb 0x2A lba n) ≡ n = omega arith in
      (
        put lba n bytes s,
        ap (λ (a : ℕ). (true, put a (count_in (cdb 0x2A lba n)) bytes s)) e
            ∙ ap (λ (c : ℕ). (true, put lba c bytes s)) e',
        λ k. elim (Bool-cases (leb lba k && ltb k (lba + n))) [
          | inl within ↦
              ap padded (put-blocks_of g s sized lba n k)
              ∙ rw within (take-append_length (g k) (replicate 512 0) (sized k))
          | inr outside ↦ ap padded (put-blocks_of g s sized lba n k) ∙ rw outside refl
        ],
        tt,
      );
}

abbrev stored : Blocks
stored k = (k + 7) ∷ []

abbrev cfg : Config
cfg = record {
  iterations = 2;
  blocks_per_iter = 3;
  condition = 67 ∷ [];
  mode = read_write_mode;
  random = true;
}

abbrev samples : ℕ → Sample
samples i = record {
  duration_ns = 100 + i;
  elapsed_ns = 500;
  ru_before = record { user_us = 1; sys_us = 1; rss_peak_kb = 8 };
  ru_after = record { user_us = 3; sys_us = 1; rss_peak_kb = 9 };
  guest_mem = none;
  timestamp = 48 ∷ [];
}

run_benchmark-keeps_example :
    (st : State Blocks) × (entries : List (List ℕ × Row)) × (run_benchmark stick cfg samples 42
        (open_log none)
        stored
      ≡ some st)
    × ((k : ℕ) → blocks_in st.scsi.transport k ≡ blocks_in stored k)
    × (read_csv st.log ≡ some (header_names ∷ map row_values entries))
    × (map summary entries ≡ numbered 2 0 (3 * 512))
run_benchmark-keeps_example =
    run_benchmark-keeps stick blocks_in 512 1024 IsAny stick-IsDisk cfg samples 42 stored (λ e. cc)
      tt (omega arith) (omega arith) (omega arith) (omega arith) (omega arith) (omega arith)
      (omega arith)

choose_lba-inside_example : (choose_lba cfg 10 42).0 + 3 ≤ 10
choose_lba-inside_example = choose_lba-inside cfg 10 42 (omega arith)
