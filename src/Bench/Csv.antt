-- ===== src/Bench/Csv.antt =====
-- benchmarks/usb-bench-rs/src/csv.rs: the rows of a measurement, and the log that they are appended to.
-- Text is its bytes.
pub mod Reader
pub mod RoundTrip
pub mod Dates
mod Tests
use masters_sibren_wieme.Prelude.{
  ℕ, zero, suc, ◌+◌, ◌-◌, ◌*◌, ◌/◌, ◌%◌, Bool, true, false, ◌||◌, Option, none, some, List, [], ◌∷◌,
  ◌++◌, map, ◌==◌, ltb, if◌then◌else◌, length, replicate,
}

-- `u32` and `u64` fields are natural numbers.
pub record Row : Type 0 where
  pub condition : List ℕ
  pub workload : List ℕ
  pub iteration : ℕ
  pub bytes : ℕ
  pub duration_ns : ℕ
  pub user_cpu_us : ℕ
  pub sys_cpu_us : ℕ
  pub rss_peak_kb : ℕ
  pub guest_mem_bytes : Option ℕ
  pub checksum_hex : Option (List ℕ)
  pub total_runtime_ns : Option ℕ
  pub notes : Option (List ℕ)

unfoldable pub new_row : List ℕ → List ℕ → Row
new_row condition workload = record {
  condition = condition;
  workload = workload;
  iteration = 0;
  bytes = 0;
  duration_ns = 0;
  user_cpu_us = 0;
  sys_cpu_us = 0;
  rss_peak_kb = 0;
  guest_mem_bytes = none;
  checksum_hex = none;
  total_runtime_ns = none;
  notes = none;
}

-- `matches!(b, b',' | b'"' | b'\n' | b'\r')`
abbrev pub is_special : ℕ → Bool
is_special b = (b == 44) || (b == 34) || (b == 10) || (b == 13)

abbrev pub any_special : List ℕ → Bool
any_special [] = false
any_special (b ∷ s) = is_special b || any_special s

-- `s.replace('"', "\"\"")`
abbrev pub double_quotes : List ℕ → List ℕ
double_quotes [] = []
double_quotes (b ∷ s) = if b == 34 then 34 ∷ 34 ∷ double_quotes s else b ∷ double_quotes s

unfoldable pub csv_escape : List ℕ → List ℕ
csv_escape s = if any_special s then 34 ∷ (double_quotes s ++ (34 ∷ [])) else s

-- The `Display` of an unsigned number; the first argument is more than the number of its digits.
unfoldable pub digits : ℕ → ℕ → List ℕ
digits zero n = []
digits (suc fuel) n =
    let rest = digits fuel (n / 10) in
    if ltb n 10 then (48 + n) ∷ [] else rest ++ ((48 + n % 10) ∷ [])

abbrev pub to_string : ℕ → List ℕ
to_string n = digits (suc n) n

-- `.map(|v| v.to_string()).unwrap_or_default()`
abbrev pub or_empty : Option ℕ → List ℕ
or_empty none = []
or_empty (some v) = to_string v

-- `.as_deref().unwrap_or("")`
abbrev pub text_or_empty : Option (List ℕ) → List ℕ
text_or_empty none = []
text_or_empty (some s) = s

-- What stands between the commas.
unfoldable pub row_fields : List ℕ → Row → List (List ℕ)
row_fields ts row =
    csv_escape ts
    ∷ csv_escape row.condition
    ∷ csv_escape row.workload
    ∷ to_string row.iteration
    ∷ to_string row.bytes
    ∷ to_string row.duration_ns
    ∷ to_string row.user_cpu_us
    ∷ to_string row.sys_cpu_us
    ∷ to_string row.rss_peak_kb
    ∷ or_empty row.guest_mem_bytes
    ∷ csv_escape (text_or_empty row.checksum_hex)
    ∷ or_empty row.total_runtime_ns
    ∷ csv_escape (text_or_empty row.notes)
    ∷ []

abbrev pub joined : List (List ℕ) → List ℕ
joined [] = []
joined (field ∷ []) = field
joined (field ∷ next ∷ fields) = field ++ (44 ∷ joined (next ∷ fields))

-- A file after one more line.
unfoldable pub write : List ℕ → Row → List ℕ → List ℕ
write ts row file = file ++ (joined (row_fields ts row) ++ (10 ∷ []))

-- The names of the columns.
abbrev pub columns : List (List ℕ)
columns =
    (116 ∷ 105 ∷ 109 ∷ 101 ∷ 115 ∷ 116 ∷ 97 ∷ 109 ∷ 112 ∷ 95 ∷ 105 ∷ 115 ∷ 111 ∷ [])
    ∷ (99 ∷ 111 ∷ 110 ∷ 100 ∷ 105 ∷ 116 ∷ 105 ∷ 111 ∷ 110 ∷ [])
    ∷ (119 ∷ 111 ∷ 114 ∷ 107 ∷ 108 ∷ 111 ∷ 97 ∷ 100 ∷ [])
    ∷ (105 ∷ 116 ∷ 101 ∷ 114 ∷ 97 ∷ 116 ∷ 105 ∷ 111 ∷ 110 ∷ [])
    ∷ (98 ∷ 121 ∷ 116 ∷ 101 ∷ 115 ∷ [])
    ∷ (100 ∷ 117 ∷ 114 ∷ 97 ∷ 116 ∷ 105 ∷ 111 ∷ 110 ∷ 95 ∷ 110 ∷ 115 ∷ [])
    ∷ (117 ∷ 115 ∷ 101 ∷ 114 ∷ 95 ∷ 99 ∷ 112 ∷ 117 ∷ 95 ∷ 117 ∷ 115 ∷ [])
    ∷ (115 ∷ 121 ∷ 115 ∷ 95 ∷ 99 ∷ 112 ∷ 117 ∷ 95 ∷ 117 ∷ 115 ∷ [])
    ∷ (114 ∷ 115 ∷ 115 ∷ 95 ∷ 112 ∷ 101 ∷ 97 ∷ 107 ∷ 95 ∷ 107 ∷ 98 ∷ [])
    ∷ (103 ∷ 117 ∷ 101 ∷ 115 ∷ 116 ∷ 95 ∷ 109 ∷ 101 ∷ 109 ∷ 95 ∷ 98 ∷ 121 ∷ 116 ∷ 101 ∷ 115 ∷ [])
    ∷ (99 ∷ 104 ∷ 101 ∷ 99 ∷ 107 ∷ 115 ∷ 117 ∷ 109 ∷ 95 ∷ 104 ∷ 101 ∷ 120 ∷ [])
    ∷ (116 ∷ 111 ∷ 116 ∷ 97 ∷ 108 ∷ 95 ∷ 114 ∷ 117 ∷ 110 ∷ 116 ∷ 105 ∷ 109 ∷ 101 ∷ 95 ∷ 110 ∷ 115
        ∷ [])
    ∷ (110 ∷ 111 ∷ 116 ∷ 101 ∷ 115 ∷ [])
    ∷ []

-- A file that is not there, or is empty, gets the header first; `none` cannot be inspected.
unfoldable pub open_log : Option (List ℕ) → List ℕ
open_log none = joined columns ++ (10 ∷ [])
open_log (some file) = if length file == 0 then file ++ (joined columns ++ (10 ∷ [])) else file

pub record Rusage : Type 0 where
  pub user_us : ℕ
  pub sys_us : ℕ
  pub rss_peak_kb : ℕ

abbrev max : ℕ → ℕ → ℕ
max a b = if ltb a b then b else a

-- `saturating_sub` is the subtraction of ℕ.
unfoldable pub delta : Rusage → Rusage → Rusage
delta self earlier = record {
  user_us = self.user_us - earlier.user_us;
  sys_us = self.sys_us - earlier.sys_us;
  rss_peak_kb = max self.rss_peak_kb earlier.rss_peak_kb;
}

-- The days since 1970-01-01, which the only caller counts from that day on, as year, month and day.
unfoldable pub epoch_days_to_ymd : ℕ → ℕ × ℕ × ℕ
epoch_days_to_ymd days =
    let z = days + 719468 in
    let era = z / 146097 in
    let doe = z - era * 146097 in
    let yoe = (doe - doe / 1460 + doe / 36524 - doe / 146096) / 365 in
    let y = yoe + era * 400 in
    let doy = doe - (365 * yoe + yoe / 4 - yoe / 100) in
    let mp = (5 * doy + 2) / 153 in
    let d = doy - (153 * mp + 2) / 5 + 1 in
    let m = if ltb mp 10 then mp + 3 else mp - 9 in ((if ltb 2 m then y else y + 1), m, d)

-- `{:0w}`
abbrev pub padded : ℕ → ℕ → List ℕ
padded w n = replicate (w - length (to_string n)) 48 ++ to_string n

-- The argument is the time in seconds since 1970, or 0 if the clock fails.
unfoldable pub iso_timestamp : ℕ → List ℕ
iso_timestamp secs =
    let date = epoch_days_to_ymd (secs / 86400) in
    let rem = secs % 86400 in
    padded 4 date.0
    ++ (45 ∷ padded 2 date.1)
    ++ (45 ∷ padded 2 date.2)
    ++ (84 ∷ padded 2 (rem / 3600))
    ++ (58 ∷ padded 2 (rem % 3600 / 60))
    ++ (58 ∷ padded 2 (rem % 60))
    ++ (90 ∷ [])
