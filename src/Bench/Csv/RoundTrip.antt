-- ===== src/Bench/Csv/RoundTrip.antt =====
-- A log is read back as its header and its rows.
use masters_sibren_wieme.Prelude.{
  ℕ, zero, suc, ◌≡◌, refl, ◌+◌, ◌<◌, ◌%◌, ◌/◌, true, false, Bool-cases, inl, inr, Option, none,
  some, List, [], ◌∷◌, ◌++◌, map, ◌==◌, ltb, ==_iff, append_assoc, append-nil, ap, sym, ◌∙◌, arith,
  ltb→lt, All,
}
use masters_sibren_wieme.Bench.Csv.Reader.{
  quote, plain, kind, at_start, bare, quoted, quote_seen, step, add, Fields, emit, read_text,
  read_csv,
}
use masters_sibren_wieme.Bench.Csv.{
  Row, is_special, any_special, double_quotes, csv_escape, digits, to_string, or_empty,
  text_or_empty, row_fields, joined, write, open_log,
}

kind-plain : (b : ℕ) → is_special b ≡ false → kind b ≡ plain
kind-plain b h = ground arith

kind-quote : (b : ℕ) → (b == 34) ≡ true → kind b ≡ quote
kind-quote b h = ground arith

read_text-bare :
    (s rest field : List ℕ) (fields : Fields)
    → any_special s ≡ false
    → read_text bare field fields (s ++ rest) ≡ read_text bare (field ++ s) fields rest
read_text-bare [] rest field fields h = rw (append-nil field) refl
read_text-bare (b ∷ s) rest field fields h =
    let here : is_special b ≡ false = ground arith in
    let there : any_special s ≡ false = ground arith in
    rw (kind-plain b here) (
      read_text-bare s rest (field ++ (b ∷ [])) fields there
      ∙ ap (λ f. read_text bare f fields rest) (append_assoc field (b ∷ []) s))

step-quoted : (b : ℕ) → (b == 34) ≡ false → step quoted (kind b) ≡ add quoted
step-quoted b h = elim (Bool-cases (b == 44)) [
  | inl c ↦ rw c refl
  | inr c ↦ elim (Bool-cases (b == 10)) [
    | inl n ↦ rw (c, h, n) refl
    | inr n ↦ elim (Bool-cases (b == 13)) [
      | inl r ↦ rw (c, h, n, r) refl
      | inr r ↦ rw (c, h, n, r) refl
    ]
  ]
]

-- A field that needs no quotes, from its start; `rest` ends it.
read_text-start :
    (s rest : List ℕ) (fields : Fields)
    → any_special s ≡ false
    → read_text at_start [] fields rest ≡ read_text bare [] fields rest
    → read_text at_start [] fields (s ++ rest) ≡ read_text bare s fields rest
read_text-start [] rest fields h ends = ends
read_text-start (b ∷ s) rest fields h ends =
    let here : is_special b ≡ false = ground arith in
    let there : any_special s ≡ false = ground arith in
    rw (kind-plain b here) (read_text-bare s rest (b ∷ []) fields there)

-- Every byte but a quote is added to a quoted field.
read_text-quoted_byte :
    (b : ℕ) (rest field : List ℕ) (fields : Fields)
    → (b == 34) ≡ false
    → read_text quoted field fields (b ∷ rest) ≡ read_text quoted (field ++ (b ∷ [])) fields rest
read_text-quoted_byte b rest field fields h = rw (step-quoted b h) refl

read_text-quoted :
    (s rest field : List ℕ) (fields : Fields)
    → read_text quoted field fields (double_quotes s ++ (34 ∷ rest))
      ≡ read_text quote_seen (field ++ s) fields rest
read_text-quoted [] rest field fields = rw (append-nil field) refl
read_text-quoted (b ∷ s) rest field fields = elim (Bool-cases (b == 34)) [
  | inl yes' ↦ rw yes' (
      read_text-quoted s rest (field ++ (34 ∷ [])) fields
      ∙ ap (λ f. read_text quote_seen f fields rest) (append_assoc field (34 ∷ []) s)
      ∙ ap (λ c. read_text quote_seen (field ++ (c ∷ s)) fields rest) (sym ((==_iff b 34).0 yes')))
  | inr no' ↦ rw no' (
      read_text-quoted_byte b (double_quotes s ++ (34 ∷ rest)) field fields no'
      ∙ read_text-quoted s rest (field ++ (b ∷ [])) fields
      ∙ ap (λ f. read_text quote_seen f fields rest) (append_assoc field (b ∷ []) s))
]

-- A field and the comma after it.
read_text-field :
    (s rest : List ℕ) (fields : Fields)
    → read_text at_start [] fields (csv_escape s ++ (44 ∷ rest))
      ≡ read_text at_start [] (fields ++ (s ∷ [])) rest
unfolding csv_escape
read_text-field s rest fields = elim (Bool-cases (any_special s)) [
  | inl yes' ↦
      rw (yes', append_assoc (double_quotes s) (34 ∷ []) (44 ∷ rest))
        (read_text-quoted s (44 ∷ rest) [] fields)
  | inr no' ↦ rw no' (read_text-start s (44 ∷ rest) fields no' refl)
]

-- A field and the end of its line.
read_text-last :
    (s rest : List ℕ) (fields : Fields)
    → read_text at_start [] fields (csv_escape s ++ (10 ∷ rest))
      ≡ emit (fields ++ (s ∷ [])) (read_csv rest)
unfolding csv_escape
read_text-last s rest fields = elim (Bool-cases (any_special s)) [
  | inl yes' ↦
      rw (yes', append_assoc (double_quotes s) (34 ∷ []) (10 ∷ rest))
        (read_text-quoted s (10 ∷ rest) [] fields)
  | inr no' ↦ rw no' (read_text-start s (10 ∷ rest) fields no' refl)
]

-- A line of one field or more.
read_text-line :
    (s : List ℕ) (ss : List (List ℕ)) (rest : List ℕ) (fields : Fields)
    → read_text at_start [] fields (joined (map csv_escape (s ∷ ss)) ++ (10 ∷ rest))
      ≡ emit (fields ++ (s ∷ ss)) (read_csv rest)
read_text-line s [] rest fields = read_text-last s rest fields
read_text-line s (t ∷ ss) rest fields =
    ap (read_text at_start [] fields)
      (append_assoc (csv_escape s) (44 ∷ joined (map csv_escape (t ∷ ss))) (10 ∷ rest))
    ∙ read_text-field s (joined (map csv_escape (t ∷ ss)) ++ (10 ∷ rest)) fields
    ∙ read_text-line t ss rest (fields ++ (s ∷ []))
    ∙ ap (λ fs. emit fs (read_csv rest)) (append_assoc fields (s ∷ []) (t ∷ ss))

any_special-append :
    (s t : List ℕ) → any_special s ≡ false → any_special t ≡ false → any_special (s ++ t) ≡ false
any_special-append [] t h k = k
any_special-append (b ∷ s) t h k =
    let here : is_special b ≡ false = ground arith in
    let there : any_special s ≡ false = ground arith in
    rw (here, any_special-append s t there k) refl

-- Numbers need no quotes.
any_special-digits : (fuel n : ℕ) → any_special (digits fuel n) ≡ false
unfolding digits
any_special-digits zero n = refl
any_special-digits (suc fuel) n = elim (Bool-cases (ltb n 10)) [
  | inl low ↦
      let small : n < 10 = ltb→lt n 10 low in
      let digit : is_special (48 + n) ≡ false = ground arith in rw (low, digit) refl
  | inr high ↦
      let digit : is_special (48 + n % 10) ≡ false = ground arith in
      rw high (
        any_special-append (digits fuel (n / 10)) ((48 + n % 10) ∷ [])
          (any_special-digits fuel (n / 10)) (rw digit refl))
]

csv_escape-digits : (fuel n : ℕ) → digits fuel n ≡ csv_escape (digits fuel n)
unfolding csv_escape
csv_escape-digits fuel n = rw (any_special-digits fuel n) refl

csv_escape-or_empty : (o : Option ℕ) → or_empty o ≡ csv_escape (or_empty o)
unfolding csv_escape
csv_escape-or_empty none = refl
csv_escape-or_empty (some n) = csv_escape-digits (suc n) n

-- The thirteen values of a row, before they are escaped.
abbrev pub row_values : List ℕ × Row → Fields
row_values (ts, row) =
    ts
    ∷ row.condition
    ∷ row.workload
    ∷ to_string row.iteration
    ∷ to_string row.bytes
    ∷ to_string row.duration_ns
    ∷ to_string row.user_cpu_us
    ∷ to_string row.sys_cpu_us
    ∷ to_string row.rss_peak_kb
    ∷ or_empty row.guest_mem_bytes
    ∷ text_or_empty row.checksum_hex
    ∷ or_empty row.total_runtime_ns
    ∷ text_or_empty row.notes
    ∷ []

row_fields-row_values :
    (entry : List ℕ × Row) → row_fields entry.0 entry.1 ≡ map csv_escape (row_values entry)
unfolding row_fields
row_fields-row_values (ts, row) =
    rw
      (
        sym (csv_escape-digits (suc row.iteration) row.iteration),
        sym (csv_escape-digits (suc row.bytes) row.bytes),
        sym (csv_escape-digits (suc row.duration_ns) row.duration_ns),
        sym (csv_escape-digits (suc row.user_cpu_us) row.user_cpu_us),
        sym (csv_escape-digits (suc row.sys_cpu_us) row.sys_cpu_us),
        sym (csv_escape-digits (suc row.rss_peak_kb) row.rss_peak_kb),
        sym (csv_escape-or_empty row.guest_mem_bytes),
        sym (csv_escape-or_empty row.total_runtime_ns),
      )
      refl

abbrev lines_of : List Fields → List ℕ
lines_of [] = []
lines_of (record' ∷ records) = joined (map csv_escape record') ++ (10 ∷ lines_of records)

abbrev IsFilled : Fields → Type 0
IsFilled [] = ⊥
IsFilled (field ∷ fields) = Unit

read_csv-lines_of :
    (records : List Fields) → All IsFilled records → read_csv (lines_of records) ≡ some records
read_csv-lines_of [] h = refl
read_csv-lines_of ([] ∷ records) h = absurd h.0
read_csv-lines_of ((s ∷ ss) ∷ records) h =
    read_text-line s ss (lines_of records) [] ∙ ap (emit (s ∷ ss)) (read_csv-lines_of records h.1)

lines_of-snoc :
    (records : List Fields) (record' : Fields)
    → lines_of records ++ (joined (map csv_escape record') ++ (10 ∷ []))
      ≡ lines_of (records ++ (record' ∷ []))
lines_of-snoc [] record' = refl
lines_of-snoc (r ∷ records) record' =
    append_assoc (joined (map csv_escape r)) (10 ∷ lines_of records)
      (joined (map csv_escape record') ++ (10 ∷ []))
    ∙ ap (λ rest. joined (map csv_escape r) ++ (10 ∷ rest)) (lines_of-snoc records record')

-- A log after more rows, each with its time stamp.
abbrev pub written : List (List ℕ × Row) → List ℕ → List ℕ
written [] file = file
written (entry ∷ entries) file = written entries (write entry.0 entry.1 file)

written-lines_of :
    (entries : List (List ℕ × Row)) (records : List Fields)
    → written entries (lines_of records) ≡ lines_of (records ++ map row_values entries)
unfolding write
written-lines_of [] records = ap lines_of (sym (append-nil records))
written-lines_of (entry ∷ entries) records =
    ap (λ fields. written entries (lines_of records ++ (joined fields ++ (10 ∷ []))))
      (row_fields-row_values entry)
    ∙ ap (written entries) (lines_of-snoc records (row_values entry))
    ∙ written-lines_of entries (records ++ (row_values entry ∷ []))
    ∙ ap lines_of (append_assoc records (row_values entry ∷ []) (map row_values entries))

rows-IsFilled : (entries : List (List ℕ × Row)) → All IsFilled (map row_values entries)
rows-IsFilled [] = tt
rows-IsFilled (entry ∷ entries) = (tt, rows-IsFilled entries)

-- The header: timestamp_iso, condition, workload, iteration, bytes, duration_ns, user_cpu_us,
-- sys_cpu_us, rss_peak_kb, guest_mem_bytes, checksum_hex, total_runtime_ns and notes.
abbrev pub header_names : List (List ℕ)
header_names =
    (116 ∷ 105 ∷ 109 ∷ 101 ∷ 115 ∷ 116 ∷ 97 ∷ 109 ∷ 112 ∷ 95 ∷ 105 ∷ 115 ∷ 111 ∷ [])
    ∷ (99 ∷ 111 ∷ 110 ∷ 100 ∷ 105 ∷ 116 ∷ 105 ∷ 111 ∷ 110 ∷ [])
    ∷ (119 ∷ 111 ∷ 114 ∷ 107 ∷ 108 ∷ 111 ∷ 97 ∷ 100 ∷ [])
    ∷ (105 ∷ 116 ∷ 101 ∷ 114 ∷ 97 ∷ 116 ∷ 105 ∷ 111 ∷ 110 ∷ [])
    ∷ (98 ∷ 121 ∷ 116 ∷ 101 ∷ 115 ∷ [])
    ∷ (100 ∷ 117 ∷ 114 ∷ 97 ∷ 116 ∷ 105 ∷ 111 ∷ 110 ∷ 95 ∷ 110 ∷ 115 ∷ [])
    ∷ (117 ∷ 115 ∷ 101 ∷ 114 ∷ 95 ∷ 99 ∷ 112 ∷ 117 ∷ 95 ∷ 117 ∷ 115 ∷ [])
    ∷ (115 ∷ 121 ∷ 115 ∷ 95 ∷ 99 ∷ 112 ∷ 117 ∷ 95 ∷ 117 ∷ 115 ∷ [])
    ∷ (114 ∷ 115 ∷ 115 ∷ 95 ∷ 112 ∷ 101 ∷ 97 ∷ 107 ∷ 95 ∷ 107 ∷ 98 ∷ [])
    ∷ (103 ∷ 117 ∷ 101 ∷ 115 ∷ 116 ∷ 95 ∷ 109 ∷ 101 ∷ 109 ∷ 95 ∷ 98 ∷ 121 ∷ 116 ∷ 101 ∷ 115 ∷ [])
    ∷ (99 ∷ 104 ∷ 101 ∷ 99 ∷ 107 ∷ 115 ∷ 117 ∷ 109 ∷ 95 ∷ 104 ∷ 101 ∷ 120 ∷ [])
    ∷ (116 ∷ 111 ∷ 116 ∷ 97 ∷ 108 ∷ 95 ∷ 114 ∷ 117 ∷ 110 ∷ 116 ∷ 105 ∷ 109 ∷ 101 ∷ 95 ∷ 110 ∷ 115
        ∷ [])
    ∷ (110 ∷ 111 ∷ 116 ∷ 101 ∷ 115 ∷ [])
    ∷ []

open_log-lines_of : open_log none ≡ lines_of (header_names ∷ [])
unfolding open_log csv_escape
open_log-lines_of = refl

-- A log that is opened where there is none, and to which rows are written, is read back by the common
-- rules as the header of thirteen names and the thirteen values of each row, whatever bytes its texts
-- contain.
pub written-read_csv :
    (entries : List (List ℕ × Row))
    → read_csv (written entries (open_log none)) ≡ some (header_names ∷ map row_values entries)
written-read_csv entries =
    ap (λ file. read_csv (written entries file)) open_log-lines_of
    ∙ ap read_csv (written-lines_of entries (header_names ∷ []))
    ∙ read_csv-lines_of (header_names ∷ map row_values entries) (tt, rows-IsFilled entries)
