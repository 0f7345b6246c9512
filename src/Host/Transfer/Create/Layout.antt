-- ===== src/Host/Transfer/Create/Layout.antt =====
-- The buffer that `new_transfer` sets up (usb-wasi-host/src/main.rs): the setup packet, and the
-- lengths of isochronous packets.
use masters_sibren_wieme.Prelude.{
  ℕ, zero, suc, ◌+◌, ◌*◌, ◌/◌, ◌%◌, ◌^◌, ◌<◌, ◌≡◌, refl, ap, ◌∙◌, List, [], ◌∷◌, length, All,
  get_or, IsByte, IsU16, arith,
}
use masters_sibren_wieme.Host.Transfer.{TransferSetup}
use masters_sibren_wieme.Host.Transfer.Create.{
  setup_packet, iso_lengths_from, iso_lengths, iso_descriptors,
}

-- The u16 at an offset, little endian, as a USB device reads a setup packet.
abbrev pub read_u16 : List ℕ → ℕ → ℕ
read_u16 bytes i = get_or bytes i 0 + 256 * get_or bytes (i + 1) 0

abbrev pub IsSetup : TransferSetup → Type 0
IsSetup s = IsByte s.bm_request_type × IsByte s.b_request × IsU16 s.w_value × IsU16 s.w_index

-- The setup packet is eight bytes, and a device that reads it as USB says finds the request that
-- the guest asked for; the length field holds the size of the payload modulo 2^16.
pub setup_packet-fields :
    (s : TransferSetup) (buf_size : ℕ)
    → IsSetup s
    → (length (setup_packet s buf_size) ≡ 8)
      × All IsByte (setup_packet s buf_size)
      × (get_or (setup_packet s buf_size) 0 0 ≡ s.bm_request_type)
      × (get_or (setup_packet s buf_size) 1 0 ≡ s.b_request)
      × (read_u16 (setup_packet s buf_size) 2 ≡ s.w_value)
      × (read_u16 (setup_packet s buf_size) 4 ≡ s.w_index)
      × (read_u16 (setup_packet s buf_size) 6 ≡ buf_size % 2 ^ 16)
unfolding setup_packet
setup_packet-fields s buf_size h = omega arith

abbrev pub sum : List ℕ → ℕ
sum [] = 0
sum (x ∷ xs) = x + sum xs

sum-iso_lengths_from :
    (left i count base rem : ℕ)
    → i + suc left ≡ count
    → sum (iso_lengths_from (suc left) i count base rem) ≡ base * suc left + rem
unfolding iso_lengths_from
sum-iso_lengths_from zero i count base rem h = ground arith
sum-iso_lengths_from (suc left) i count base rem h =
    ground (arith, sum-iso_lengths_from left (i + 1) count base rem)

length-iso_lengths_from :
    (left i count base rem : ℕ) → length (iso_lengths_from left i count base rem) ≡ left
unfolding iso_lengths_from
length-iso_lengths_from zero i count base rem = refl
length-iso_lengths_from (suc left) i count base rem =
    ap suc (length-iso_lengths_from left (i + 1) count base rem)

-- The isochronous packets share out the whole buffer: there are as many as asked for, and their
-- lengths add up to its size.
pub iso_lengths-sum :
    (packet_count buf_size : ℕ)
    → 0 < packet_count
    → (length (iso_lengths packet_count buf_size) ≡ packet_count)
      × (sum (iso_lengths packet_count buf_size) ≡ buf_size)
unfolding iso_lengths
iso_lengths-sum zero buf_size h = absurd (omega arith)
iso_lengths-sum (suc n) buf_size h = (
  length-iso_lengths_from (suc n) 0 (suc n) (buf_size / suc n) (buf_size % suc n),
  sum-iso_lengths_from n 0 (suc n) (buf_size / suc n) (buf_size % suc n) (omega arith)
      ∙ omega arith,
)

pub length-iso_descriptors : (ns : List ℕ) → length (iso_descriptors ns) ≡ length ns
unfolding iso_descriptors
length-iso_descriptors [] = refl
length-iso_descriptors (n ∷ ns) = ap suc (length-iso_descriptors ns)
