-- ===== src/Host/Policy/Parsing.antt =====
-- What `from_str` reads: printing and parsing an identifier, and the range of every result.
use masters_sibren_wieme.Prelude.{
  ℕ, suc, ◌+◌, ◌-◌, ◌*◌, ◌/◌, ◌%◌, ◌^◌, ◌<◌, ◌≡◌, ◌≢◌, refl, ◌∙◌, List, [], ◌∷◌, ◌++◌, some, IsU16,
  ltb, ne→==_false, append-nil, if◌then◌else◌, ◌==◌, length, arith, Option-cases, inl, inr,
}
use masters_sibren_wieme.Host.Policy.{
  UsbDeviceIdentifier, ok, push_front, split, hex_digit, digits_u16, from_str_radix, from_parts,
  from_str,
}

-- `{:x}` of one digit.
pub hex_char : ℕ → ℕ
hex_char d = if ltb d 10 then b'0' + d else b'a' + (d - 10)

-- `{:04x}` of a u16.
pub hex4 : ℕ → List ℕ
unfolding hex_char
hex4 n =
    hex_char (n / 4096 % 16)
    ∷ hex_char (n / 256 % 16)
    ∷ hex_char (n / 16 % 16)
    ∷ hex_char (n % 16)
    ∷ []

-- `{:04x}:{:04x}`, as the host prints an identifier.
pub format_id : UsbDeviceIdentifier → List ℕ
format_id d = hex4 d.vendor_id ++ b':' ∷ hex4 d.product_id

-- How often a byte occurs in a text.
abbrev pub count : ℕ → List ℕ → ℕ
count c [] = 0
count c (x ∷ xs) = (if x == c then 1 else 0) + count c xs

hex_digit-hex_char : (d : ℕ) → d < 16 → hex_digit (hex_char d) ≡ some d
unfolding hex_digit hex_char
hex_digit-hex_char d h = ground arith

hex_char-ne : (d : ℕ) → d < 16 → (hex_char d ≢ b':') × (hex_char d ≢ b'+')
unfolding hex_char
hex_char-ne d h = (ground arith, ground arith)

digits_u16-cons :
    (acc d : ℕ) (cs : List ℕ)
    → d < 16
    → acc * 16 + d < 2 ^ 16
    → digits_u16 acc (hex_char d ∷ cs) ≡ digits_u16 (acc * 16 + d) cs
unfolding digits_u16
digits_u16-cons acc d cs h fits = ground (arith, hex_digit-hex_char d h)

digits_u16-hex4 : (n : ℕ) → IsU16 n → digits_u16 0 (hex4 n) ≡ some n
unfolding hex4 digits_u16
digits_u16-hex4 n h = ground (
  arith,
  digits_u16-cons 0 (n / 4096 % 16)
      (hex_char (n / 256 % 16) ∷ hex_char (n / 16 % 16) ∷ hex_char (n % 16) ∷ []),
  digits_u16-cons (0 * 16 + n / 4096 % 16) (n / 256 % 16)
      (hex_char (n / 16 % 16) ∷ hex_char (n % 16) ∷ []),
  digits_u16-cons ((0 * 16 + n / 4096 % 16) * 16 + n / 256 % 16) (n / 16 % 16)
      (hex_char (n % 16) ∷ []),
  digits_u16-cons (((0 * 16 + n / 4096 % 16) * 16 + n / 256 % 16) * 16 + n / 16 % 16) (n % 16) [],
)

from_str_radix-cons :
    (c d : ℕ) (cs : List ℕ) → c ≢ b'+' → from_str_radix (c ∷ d ∷ cs) ≡ digits_u16 0 (c ∷ d ∷ cs)
unfolding from_str_radix
from_str_radix-cons c d cs h = rw (ne→==_false c b'+' h)

from_str_radix-hex4 : (n : ℕ) → IsU16 n → from_str_radix (hex4 n) ≡ some n
unfolding hex4
from_str_radix-hex4 n h =
    from_str_radix-cons _ _ _ (hex_char-ne (n / 4096 % 16) (omega arith)).1 ∙ digits_u16-hex4 n h

split-cons_ne :
    (sep x : ℕ) (xs : List ℕ) → x ≢ sep → split sep (x ∷ xs) ≡ push_front x (split sep xs)
unfolding split
split-cons_ne sep x xs h = ground arith

split-hex4 :
    (n : ℕ) (part : List ℕ) (parts : List (List ℕ)) (rest : List ℕ)
    → split b':' rest ≡ part ∷ parts
    → split b':' (hex4 n ++ rest) ≡ (hex4 n ++ part) ∷ parts
unfolding hex4 push_front
split-hex4 n part parts rest e = rw (
  split-cons_ne b':' _ _ (hex_char-ne (n / 4096 % 16) (omega arith)).0,
  split-cons_ne b':' _ _ (hex_char-ne (n / 256 % 16) (omega arith)).0,
  split-cons_ne b':' _ _ (hex_char-ne (n / 16 % 16) (omega arith)).0,
  split-cons_ne b':' _ _ (hex_char-ne (n % 16) (omega arith)).0,
  e,
)

split-hex4_end : (n : ℕ) → split b':' (hex4 n) ≡ hex4 n ∷ []
split-hex4_end n =
    let e : split b':' [] ≡ [] ∷ [] = unfold split in refl in
    rw (append-nil (hex4 n)) at (split-hex4 n [] [] [] e)

split-format_id :
    (d : UsbDeviceIdentifier) → split b':' (format_id d) ≡ hex4 d.vendor_id ∷ hex4 d.product_id ∷ []
unfolding format_id
split-format_id d =
    let e : split b':' (b':' ∷ hex4 d.product_id) ≡ [] ∷ hex4 d.product_id ∷ [] =
      unfold split in rw (split-hex4_end d.product_id) in
    rw (append-nil (hex4 d.vendor_id)) at
      (split-hex4 d.vendor_id [] (hex4 d.product_id ∷ []) (b':' ∷ hex4 d.product_id) e)

-- An identifier printed as `{:04x}:{:04x}` is parsed back to itself, whatever its two u16 are.
pub from_str-format_id :
    (d : UsbDeviceIdentifier)
    → IsU16 d.vendor_id
    → IsU16 d.product_id
    → from_str (format_id d) ≡ ok d
unfolding from_str
from_str-format_id d hv hp = rw (
  split-format_id d,
  from_parts,
  from_str_radix-hex4 d.vendor_id hv,
  from_str_radix-hex4 d.product_id hp,
)

digits_u16-IsU16 :
    (acc : ℕ) (cs : List ℕ) {n : ℕ} → IsU16 acc → digits_u16 acc cs ≡ some n → IsU16 n
unfolding digits_u16
digits_u16-IsU16 acc [] h e = ground arith
digits_u16-IsU16 acc (c ∷ cs) {n} h e = elim (Option-cases (hex_digit c)) [
  | inl bad ↦ absurd (ground arith)
  | inr (d, good) ↦ ground (arith, digits_u16-IsU16 (acc * 16 + d) cs {n = n})
]

from_str_radix-IsU16 : (s : List ℕ) {n : ℕ} → from_str_radix s ≡ some n → IsU16 n
unfolding from_str_radix
from_str_radix-IsU16 [] e = cc
from_str_radix-IsU16 (c ∷ []) {n} e = ground (arith, digits_u16-IsU16 0 (c ∷ []) {n = n})
from_str_radix-IsU16 (c ∷ d ∷ cs) {n} e =
    ground (arith, digits_u16-IsU16 0 (d ∷ cs) {n = n}, digits_u16-IsU16 0 (c ∷ d ∷ cs) {n = n})

from_parts-IsU16 :
    (parts : List (List ℕ)) (d : UsbDeviceIdentifier)
    → from_parts parts ≡ ok d
    → (length parts ≡ 2) × IsU16 d.vendor_id × IsU16 d.product_id
unfolding from_parts
from_parts-IsU16 (a ∷ b ∷ []) d e = elim (Option-cases (from_str_radix a)) [
  | inl bad ↦ absurd (ground arith)
  | inr (v, va) ↦ elim (Option-cases (from_str_radix b)) [
    | inl bad ↦ absurd (ground arith)
    | inr (p, pb) ↦ ground (arith, from_str_radix-IsU16 a va, from_str_radix-IsU16 b pb)
  ]
]
from_parts-IsU16 parts d e = cc

length-push_front :
    (x : ℕ) (parts : List (List ℕ)) → 0 < length parts → length (push_front x parts) ≡ length parts
unfolding push_front
length-push_front x [] h = absurd (omega arith)
length-push_front x (part ∷ parts) h = refl

length-split : (sep : ℕ) (s : List ℕ) → length (split sep s) ≡ suc (count sep s)
unfolding split
length-split sep [] = refl
length-split sep (x ∷ xs) = ground (arith, length-split sep xs, length-push_front x (split sep xs))

-- What `from_str` accepts has exactly one colon, and both ids that it returns are u16.
pub from_str-IsU16 :
    (s : List ℕ) (d : UsbDeviceIdentifier)
    → from_str s ≡ ok d
    → (count b':' s ≡ 1) × IsU16 d.vendor_id × IsU16 d.product_id
unfolding from_str
from_str-IsU16 s d e = omega (arith, from_parts-IsU16 _ d e, length-split b':' s)
