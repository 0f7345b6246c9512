-- ===== src/Bench/Csv/Tests.antt =====
-- The dates and the fields that the source tests, and the theorems of the log on a row.
use masters_sibren_wieme.Prelude.{◌≡◌, refl, ◌+◌, some, none, [], ◌∷◌, map}
use masters_sibren_wieme.Bench.Csv.{
  Row, csv_escape, digits, open_log, epoch_days_to_ymd, iso_timestamp,
}
use masters_sibren_wieme.Bench.Csv.Reader.{read_csv}
use masters_sibren_wieme.Bench.Csv.RoundTrip.{header_names, row_values, written, written-read_csv}
use masters_sibren_wieme.Bench.Csv.Dates.{IsDate, day_number, epoch_days_to_ymd-IsDate}

leap_day_2000 : epoch_days_to_ymd 11016 ≡ (2000, 2, 29)
unfolding epoch_days_to_ymd
leap_day_2000 = refl

day_of_2026 : epoch_days_to_ymd 20569 ≡ (2026, 4, 26)
unfolding epoch_days_to_ymd
day_of_2026 = refl

-- `a,b` and `"`
separator_quoted : csv_escape (97 ∷ 44 ∷ 98 ∷ []) ≡ 34 ∷ 97 ∷ 44 ∷ 98 ∷ 34 ∷ []
unfolding csv_escape
separator_quoted = refl

quote_doubled : csv_escape (34 ∷ []) ≡ 34 ∷ 34 ∷ 34 ∷ 34 ∷ []
unfolding csv_escape
quote_doubled = refl

-- 1970-01-01T00:00:59Z
minute_less :
    iso_timestamp 59
    ≡ 49 ∷ 57 ∷ 55 ∷ 48 ∷ 45 ∷ 48 ∷ 49 ∷ 45 ∷ 48 ∷ 49 ∷ 84 ∷ 48 ∷ 48 ∷ 58 ∷ 48 ∷ 48 ∷ 58 ∷ 53 ∷ 57
      ∷ 90 ∷ []
unfolding iso_timestamp epoch_days_to_ymd digits
minute_less = refl

-- The notes hold a comma, a quote and a line feed.
abbrev noted : Row
noted = record {
  condition = 110 ∷ [];
  workload = 98 ∷ [];
  iteration = 12;
  bytes = 512;
  duration_ns = 100;
  user_cpu_us = 0;
  sys_cpu_us = 0;
  rss_peak_kb = 8;
  guest_mem_bytes = none;
  checksum_hex = some (100 ∷ []);
  total_runtime_ns = some 7;
  notes = some (44 ∷ 34 ∷ 10 ∷ []);
}

written-read_csv_example :
    read_csv (written ((90 ∷ [], noted) ∷ []) (open_log none))
    ≡ some (header_names ∷ map row_values ((90 ∷ [], noted) ∷ []))
written-read_csv_example = written-read_csv ((90 ∷ [], noted) ∷ [])

epoch_days_to_ymd-IsDate_example :
    IsDate (epoch_days_to_ymd 11016)
    × (day_number (epoch_days_to_ymd 11016) ≡ 11016 + day_number (1970, 1, 1))
epoch_days_to_ymd-IsDate_example = epoch_days_to_ymd-IsDate 11016
