-- ===== src/Guest/ReadAndHash/Samples.antt =====
-- A drive that takes the frame of a READ(10), sends its blocks and then its status, for the tests. The
-- host hands back zeros for the frame.
use masters_sibren_wieme.Prelude.{
  ℕ, ◌≡◌, refl, ◌+◌, ◌*◌, ◌%◌, ◌^◌, List, [], get_or, length, replicate, length-replicate, arith,
  ap, ◌∙◌,
}
use masters_sibren_wieme.Guest.BulkOnly.{inward}
use masters_sibren_wieme.Guest.BulkOnly.Frames.{frame, u32_of, u32_of-le_bytes}
use masters_sibren_wieme.Guest.MassStorage.Blocks.{be_bytes-value}
use masters_sibren_wieme.Guest.MassStorage.Reading.Disk.{blocks_of}
use masters_sibren_wieme.Host.Errors.{LibusbError}
use masters_sibren_wieme.Guest.ReadAndHash.Data.{Outcome, returned, Handle}
use masters_sibren_wieme.Guest.ReadAndHash.Usb.{transfer}
use masters_sibren_wieme.Guest.ReadAndHash.Usb.Frames.{wrapper_of, passed, read_10_bytes}
use masters_sibren_wieme.Guest.ReadAndHash.Usb.Reads.{IsDrive}

pub data Phase : Type 0 where
  idle : Phase
  sends reports : List ℕ → Phase

pub record Bus : Type 0 where
  pub phase : Phase
  pub payload : List ℕ

abbrev pub block_bytes : ℕ → List ℕ
block_bytes block = replicate 512 (block % 256)

-- The fields of the frame.
abbrev tag_in : List ℕ → ℕ
tag_in p = u32_of (get_or p 4 0) (get_or p 5 0) (get_or p 6 0) (get_or p 7 0)

abbrev address_in : List ℕ → ℕ
address_in p =
    2 ^ 24 * get_or p 17 0 + 2 ^ 16 * get_or p 18 0 + 2 ^ 8 * get_or p 19 0 + get_or p 20 0

abbrev count_in : List ℕ → ℕ
count_in p = 2 ^ 8 * get_or p 22 0 + get_or p 23 0

abbrev reporting : List ℕ → Bus
reporting p = record { phase = reports p; payload = [] }

abbrev pub respond : Phase → List ℕ → Outcome LibusbError Bus (List ℕ)
respond idle payload =
    returned (replicate (length payload) 0) (record { phase = sends payload; payload = [] })
respond (sends p) payload =
    returned (blocks_of block_bytes (address_in p) (count_in p))
      (record { phase = reports p; payload = [] })
respond (reports p) payload = returned (passed (tag_in p) 0) (record { phase = idle; payload = [] })

abbrev pub drive : Handle Bus
drive = record {
  set_configuration = λ c s. returned tt s;
  claim_interface = λ i s. returned tt s;
  new_transfer = λ type setup size opts s. returned 0 s;
  submit_transfer = λ x payload s. returned tt (record s { payload = payload });
  await_transfer = λ x s. respond s.phase s.payload;
}

abbrev pub IsIdle : Bus → Type 0
IsIdle s = s.phase ≡ idle

pub drive-IsDrive : IsDrive drive block_bytes 8 IsIdle
unfolding transfer
drive-IsDrive = record {
  sized = λ block. length-replicate 512 (block % 256);
  answers = λ tag address n s ready small some' few low.
      let p = frame (wrapper_of tag (n * 512) inward (read_10_bytes address n)) in
      let e : address_in p ≡ address = be_bytes-value address (omega arith) in
      let e' : count_in p ≡ n = omega arith in
      let e'' : tag_in p ≡ tag = u32_of-le_bytes tag small in
      (
        record { phase = sends p; payload = [] },
        reporting p,
        record { phase = idle; payload = [] },
        replicate 31 0,
        0,
        rw ready refl,
        ap (λ (a : ℕ). returned (blocks_of block_bytes a (count_in p)) (reporting p)) e
            ∙ ap (λ (k : ℕ). returned (blocks_of block_bytes address k) (reporting p)) e',
        ap (λ (t : ℕ). returned (passed t 0) (record { phase = idle; payload = [] })) e'',
        refl,
      );
}
