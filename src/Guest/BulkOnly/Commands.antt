-- ===== src/Guest/BulkOnly/Commands.antt =====
-- The commands of the transport: what they answer to a device's status, their tags, and the LUNs
-- that make them panic.
use masters_sibren_wieme.Prelude.{
  ℕ, ◌≡◌, ◌↔◌, ◌≤◌, ◌<◌, ◌+◌, ◌%◌, ◌^◌, zero, suc, Bool, true, false, Option, none, some, List, [],
  ◌==◌, refl, ltb, le→ltb_false, ◌≢◌, if◌then◌else◌, length, IsU32, arith, Bool-cases, inl, inr,
}
use masters_sibren_wieme.Host.Transfer.{bulk}
use masters_sibren_wieme.Guest.BulkOnly.{
  DeviceHandle, BulkOnlyTransportDevice, BulkOnlyTransportCommandBlock, CommandStatusWrapper,
  Result, ok, err, invalid_lun, incorrect_tag, inward, outward, is_sendable, to_bytes, status_of,
  empty_setup, options, get_tag, select_lun, exchange, judge_csw, receive_csw, receive_data,
  with_data, wrapper, command_in, send_data, command_out,
}
use masters_sibren_wieme.Guest.BulkOnly.Bytes.{BytesCrate, IsDocumented}
use masters_sibren_wieme.Guest.BulkOnly.Frames.{
  frame, length-frame, is_sendable-length, status_frame, to_bytes-frame, from_bytes-status_frame,
}

-- The device after n commands.
abbrev pub after_tags : ℕ → BulkOnlyTransportDevice → BulkOnlyTransportDevice
after_tags zero d = d
after_tags (suc n) d = after_tags n (get_tag d).1

after_tags-current_tag :
    (n : ℕ) (d : BulkOnlyTransportDevice)
    → IsU32 d.current_tag
    → (after_tags n d).current_tag ≡ (d.current_tag + n) % 2 ^ 32
unfolding get_tag
after_tags-current_tag zero d h = omega arith
after_tags-current_tag (suc n) d h =
    omega (arith, after_tags-current_tag n (get_tag d).1 (omega arith))

-- Of 2^32 commands in a row, no two carry the same tag.
pub get_tag-distinct :
    (d : BulkOnlyTransportDevice) (i j : ℕ)
    → IsU32 d.current_tag
    → i < 2 ^ 32
    → j < 2 ^ 32
    → (get_tag (after_tags i d)).0 ≡ (get_tag (after_tags j d)).0
    → i ≡ j
unfolding get_tag
get_tag-distinct d i j h k l same =
    omega (arith, after_tags-current_tag i d h, after_tags-current_tag j d h, same)

commands-unsendable :
    {S : Type 0} (h : DeviceHandle S) (b : BytesCrate) (d : BulkOnlyTransportDevice)
    → 16 ≤ d.selected_lun
    → (block : BulkOnlyTransportCommandBlock) (payload : Option (List ℕ)) (s : S)
    → (command_in h b block d s ≡ none) × (command_out h b block payload d s ≡ none)
unfolding command_in command_out to_bytes
commands-unsendable h b d high block payload s =
    (rw (le→ltb_false d.selected_lun 16 high), rw (le→ltb_false d.selected_lun 16 high))

select_lun-after :
    (lun : ℕ) (d : BulkOnlyTransportDevice)
    → d.max_lun ≤ lun
    → (select_lun lun d).1.selected_lun ≡ lun
unfolding select_lun
select_lun-after lun d high = rw (le→ltb_false lun d.max_lun high)

select_lun_iff :
    (lun : ℕ) (d : BulkOnlyTransportDevice)
    → ((select_lun lun d).0 ≡ err invalid_lun) ↔ (lun < d.max_lun)
unfolding select_lun
select_lun_iff lun d = elim (Bool-cases (ltb lun d.max_lun)) [
  | inl low ↦ (λ p. ground arith, λ p. rw low)
  | inr high ↦ (λ p. absurd (ok-ne-err (simp high at p)), λ p. absurd (ground arith))
]
  where
    ok-ne-err : ◌≢◌ {A = Result (Unit {0})} (ok tt) (err invalid_lun)
    ok-ne-err q = absurd (cc)

-- A LUN below the device's highest is refused, and every other is taken, also one that the device
-- does not have; after one of 16 or more each command panics.
pub select_lun-panics :
    {S : Type 0} (h : DeviceHandle S) (b : BytesCrate) (lun : ℕ) (d : BulkOnlyTransportDevice)
    → (((select_lun lun d).0 ≡ err invalid_lun) ↔ (lun < d.max_lun))
      × (d.max_lun ≤ lun
          → 16 ≤ lun
          → (block : BulkOnlyTransportCommandBlock) (payload : Option (List ℕ)) (s : S)
          → (command_in h b block (select_lun lun d).1 s ≡ none)
            × (command_out h b block payload (select_lun lun d).1 s ≡ none))
select_lun-panics h b lun d = (
  select_lun_iff lun d,
  λ taken high.
      commands-unsendable h b (select_lun lun d).1
        (omega (arith, select_lun-after lun d taken, high)),
)

module _ {S : Type 0} (h : DeviceHandle S) (b : BytesCrate) (doc : IsDocumented b) where
  judge_csw-status_frame :
      (tag reported residue status : ℕ)
      → IsU32 reported
      → IsU32 residue
      → judge_csw h b tag (status_frame b doc 0x53425355 reported residue status)
        ≡ some (
            if reported == tag
            then ok (record { tag = reported; data_residue = residue; status = status_of status })
            else err incorrect_tag)
  unfolding judge_csw
  judge_csw-status_frame tag reported residue status k l =
      rw ((from_bytes-status_frame b doc 0x53425355 reported residue status (omega arith) k l).0)

  judge_csw-short :
      (tag : ℕ) (bytes : List ℕ)
      → (length bytes == 13) ≡ false
      → judge_csw h b tag bytes ≡ some (err incorrect_tag)
  unfolding judge_csw
  judge_csw-short tag bytes short = rw short

  with_data-if :
      (bytes : List ℕ) (c : Bool) (csw : CommandStatusWrapper)
      → with_data h bytes (if c then ok csw else err incorrect_tag)
        ≡ (if c then ok (csw, bytes) else err incorrect_tag)
  with_data-if bytes true csw = refl
  with_data-if bytes false csw = refl

  module _ (residue status reported : ℕ) (k : IsU32 reported) (l : IsU32 residue)
      (d : BulkOnlyTransportDevice) (block : BulkOnlyTransportCommandBlock) where
    abbrev reported_csw : CommandStatusWrapper
    reported_csw = record { tag = reported; data_residue = residue; status = status_of status }

    -- If the three transfers of a command are created, and the device answers with a status frame,
    -- the command sends the frame of its block and returns the data and the status, provided that
    -- the tags are the same, and the error for the tag if not; either way the tag moves on.
    pub command_in-answered :
        (s s1 s2 s3 : S) (sent : Option (List ℕ)) (bytes : List ℕ)
        → is_sendable (wrapper h d block inward) ≡ true
        → exchange h bulk empty_setup 31
            (options d.bulk_out 5000)
            (frame (wrapper h d block inward))
            s
          ≡ some (sent, s1)
        → receive_data h block.transfer_length (options d.bulk_in 10000) s1 ≡ some (bytes, s2)
        → exchange h bulk empty_setup 13 (options d.bulk_in 10000) [] s2
          ≡ some (some (status_frame b doc 0x53425355 reported residue status), s3)
        → command_in h b block d s
          ≡ some (
            (if reported == d.current_tag then ok (reported_csw, bytes) else err incorrect_tag),
            record d { current_tag = (d.current_tag + 1) % 2 ^ 32 },
            s3,
          )
    unfolding command_in receive_csw get_tag
    command_in-answered s s1 s2 s3 sent bytes good sending receiving ending = rw (
      to_bytes-frame b doc (wrapper h d block inward) good,
      length-frame (wrapper h d block inward) (is_sendable-length (wrapper h d block inward) good),
      sending,
      receiving,
      ending,
      judge_csw-status_frame d.current_tag reported residue status k l,
      with_data-if bytes (reported == d.current_tag) reported_csw,
    )

    -- If the transfers of a command that sends data, or none, are created, and the device answers with
    -- a status frame, command_out sends the frame of its block and returns the status, provided that
    -- the tags are the same, and the error for the tag if not; either way the tag moves on.
    pub command_out-answered :
        (payload : Option (List ℕ)) (s s1 s2 s3 : S) (sent : Option (List ℕ))
        → is_sendable (wrapper h d block outward) ≡ true
        → exchange h bulk empty_setup 31
            (options d.bulk_out 5000)
            (frame (wrapper h d block outward))
            s
          ≡ some (sent, s1)
        → send_data h payload (options d.bulk_out 5000) s1 ≡ some s2
        → exchange h bulk empty_setup 13 (options d.bulk_in 5000) [] s2
          ≡ some (some (status_frame b doc 0x53425355 reported residue status), s3)
        → command_out h b block payload d s
          ≡ some (
            (if reported == d.current_tag then ok reported_csw else err incorrect_tag),
            record d { current_tag = (d.current_tag + 1) % 2 ^ 32 },
            s3,
          )
    unfolding command_out receive_csw get_tag
    command_out-answered payload s s1 s2 s3 sent good sending data_sent ending = rw (
      to_bytes-frame b doc (wrapper h d block outward) good,
      length-frame (wrapper h d block outward)
          (is_sendable-length (wrapper h d block outward) good),
      sending,
      data_sent,
      ending,
      judge_csw-status_frame d.current_tag reported residue status k l,
    )
