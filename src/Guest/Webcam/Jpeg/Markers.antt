-- ===== src/Guest/Webcam/Jpeg/Markers.antt =====
-- The injection of the Huffman tables, and the resolutions that are known.
use masters_sibren_wieme.Prelude.{
  ℕ, ◌≡◌, ◌+◌, ◌*◌, true, false, ◌&&◌, ◌==◌, Option, none, some, List, [], ◌∷◌, ◌++◌, refl, ap, ◌∙◌,
  arith, length, take, drop, take-append-drop, length-append, Bool-cases, Option-cases, inl, inr,
  All,
}
use masters_sibren_wieme.Guest.Webcam.Jpeg.{
  known, guess_from, guess_resolution, shift, position, is_some, dht_dc_luma, dht_dc_chroma,
  dht_ac_luma, dht_ac_chroma, inject_standard_dht,
}

-- The size of an uncompressed frame of two bytes for each pixel gives its resolution back, for every
-- resolution that the table knows.
pub guess_resolution-known :
    (negotiated : ℕ) → All (λ size. guess_resolution (size.0 * size.1 * 2) negotiated ≡ size) known
unfolding guess_resolution guess_from
guess_resolution-known negotiated =
    (refl, (refl, (refl, (refl, (refl, (refl, (refl, (refl, (refl, (refl, (refl, tt)))))))))))

is_some-shift : (o : Option ℕ) → is_some (shift o) ≡ is_some o
is_some-shift none = refl
is_some-shift (some i) = refl

-- The marker is found wherever it stands.
position-append : (xs ys : List ℕ) → is_some (position 0xFF 0xC4 (xs ++ (0xFF ∷ 0xC4 ∷ ys))) ≡ true
unfolding position
position-append [] ys = refl
position-append (x ∷ []) ys = ground arith
position-append (x ∷ y ∷ xs) ys = elim (Bool-cases (x == 0xFF && y == 0xC4)) [
  | inl here ↦ simp here refl
  | inr later ↦ simp later (
      is_some-shift (position 0xFF 0xC4 (y ∷ (xs ++ (0xFF ∷ 0xC4 ∷ ys))))
      ∙ position-append (y ∷ xs) ys)
]

abbrev pub tables : List ℕ
tables = dht_dc_luma ++ (dht_dc_chroma ++ (dht_ac_luma ++ dht_ac_chroma))

inject-has :
    (bytes : List ℕ) → is_some (position 0xFF 0xC4 bytes) ≡ true → inject_standard_dht bytes ≡ bytes
unfolding inject_standard_dht
inject-has bytes h = rw h

inject-no_scan :
    (bytes : List ℕ) → position 0xFF 0xDA bytes ≡ none → inject_standard_dht bytes ≡ bytes
unfolding inject_standard_dht
inject-no_scan bytes h = elim (Bool-cases (is_some (position 0xFF 0xC4 bytes))) [
  | inl yes' ↦ rw yes'
  | inr no' ↦ rw (no', h)
]

inject-scan :
    (bytes : List ℕ) (sos : ℕ)
    → is_some (position 0xFF 0xC4 bytes) ≡ false
    → position 0xFF 0xDA bytes ≡ some sos
    → inject_standard_dht bytes ≡ take sos bytes ++ (tables ++ drop sos bytes)
unfolding inject_standard_dht
inject-scan bytes sos h k = rw (h, k)

length-inject :
    (bytes : List ℕ) (sos : ℕ)
    → length (take sos bytes ++ (tables ++ drop sos bytes)) ≡ length bytes + 432
length-inject bytes sos = omega (
  arith,
  length-append (take sos bytes) (tables ++ drop sos bytes),
  length-append (take sos bytes) (drop sos bytes),
  ap length (take-append-drop sos bytes),
)

inject-has_tables :
    (bytes : List ℕ) (sos : ℕ)
    → is_some (position 0xFF 0xC4 (take sos bytes ++ (tables ++ drop sos bytes))) ≡ true
inject-has_tables bytes sos = position-append (take sos bytes) (drop 2 (tables ++ drop sos bytes))

inject-idempotent :
    (bytes : List ℕ) → inject_standard_dht (inject_standard_dht bytes) ≡ inject_standard_dht bytes
inject-idempotent bytes = elim (Bool-cases (is_some (position 0xFF 0xC4 bytes))) [
  | inl yes' ↦ ap inject_standard_dht (inject-has bytes yes')
  | inr no' ↦ elim (Option-cases (position 0xFF 0xDA bytes)) [
    | inl none' ↦ ap inject_standard_dht (inject-no_scan bytes none')
    | inr (sos, scan) ↦
        rw (inject-scan bytes sos no' scan)
          (inject-has (take sos bytes ++ (tables ++ drop sos bytes)) (inject-has_tables bytes sos))
  ]
]

-- A frame that has a table already, or that has no start of scan, is left as it is; in every other
-- one the four tables, 432 bytes, stand just before the first start of scan and nothing else is
-- changed; a second injection changes nothing.
pub inject_standard_dht-tables :
    (bytes : List ℕ)
    → (is_some (position 0xFF 0xC4 bytes) ≡ true → inject_standard_dht bytes ≡ bytes)
      × (position 0xFF 0xDA bytes ≡ none → inject_standard_dht bytes ≡ bytes)
      × ((sos : ℕ)
          → is_some (position 0xFF 0xC4 bytes) ≡ false
          → position 0xFF 0xDA bytes ≡ some sos
          → (inject_standard_dht bytes ≡ take sos bytes ++ (tables ++ drop sos bytes))
            × (length (inject_standard_dht bytes) ≡ length bytes + 432))
      × (inject_standard_dht (inject_standard_dht bytes) ≡ inject_standard_dht bytes)
inject_standard_dht-tables bytes = (
  inject-has bytes,
  inject-no_scan bytes,
  λ sos h k.
      (inject-scan bytes sos h k, ap length (inject-scan bytes sos h k) ∙ length-inject bytes sos),
  inject-idempotent bytes,
)
