-- ===== src/Host/Transfer/Tests.antt =====
-- Runs of transfers, and the theorems at concrete inputs: a control transfer that reads two bytes,
-- and a bulk transfer that sends three.
use masters_sibren_wieme.Prelude.{ℕ, ◌≡◌, ◌≢◌, refl, true, false, none, some, List, [], ◌∷◌, arith}
use masters_sibren_wieme.Prelude.Int.{pos, negsuc}
use masters_sibren_wieme.Host.Errors.{ok, err}
use masters_sibren_wieme.Host.Transfer.{
  control, bulk, TransferSetup, TransferOptions, Status, LibusbTransfer, CallbackPointer, returns,
  panics, faults, ◌>>=◌, Transfer,
}
use masters_sibren_wieme.Host.Transfer.Create.{
  setup_packet, total_len_of, iso_packets_of, iso_part, prepared, new_transfer, fill_buffer,
}
use masters_sibren_wieme.Host.Transfer.Completion.{
  Delivery, deliver, transfer_callback, report, completed_data, control_data, first_byte, slice,
  bulk_data, slice_i32, fill_descriptors,
}
use masters_sibren_wieme.Host.Transfer.Calls.{
  copy_into, payload_offset, copy_payload, hand_over, submit_transfer, await_transfer,
  cancel_transfer, cancel_loaded, drop_loaded, drop_transfer, iso_packets,
}
use masters_sibren_wieme.Host.Transfer.Life.{
  allocated, submitted, finished, IsLaidOut, IsSound, Fits, concrete,
}
use masters_sibren_wieme.Host.Transfer.Life.Submit.{after_submit, submit-allocated}
use masters_sibren_wieme.Host.Transfer.Life.Finish.{
  outcome_of, transfer_callback-submitted, after_await, concrete_result, await_transfer-after_await,
}
use masters_sibren_wieme.Host.Transfer.Life.Run.{Step, Reach}
use masters_sibren_wieme.Host.Transfer.Life.Safety.{
  Reach-calls_safe, Reach-callback_safe, submit_transfer-after_callback,
  submit_transfer-after_refusal,
}
use masters_sibren_wieme.Host.Transfer.Life.Races.{drop_loaded-race}

-- GET_MAX_LUN of a mass storage device, with room for two bytes.
abbrev get_max_lun : TransferSetup
get_max_lun = record { bm_request_type = 0xa1; b_request = 0xfe; w_value = 0; w_index = 0x102 }

abbrev options : TransferOptions
options = record { endpoint = 0x02; timeout_ms = 1000; stream_id = 0; iso_packets = 0 }

-- A bulk transfer of three bytes to endpoint 2.
abbrev out_transfer : LibusbTransfer
out_transfer = record {
  endpoint = 0x02;
  transfer_type = bulk;
  timeout = 1000;
  stream_id = 0;
  status = Status.completed;
  length = pos 3;
  actual_length = pos 0;
  callback = CallbackPointer.unset;
  num_iso_packets = pos 0;
  iso_packet_desc = [];
}

abbrev no_setup : TransferSetup
no_setup = record { bm_request_type = 0; b_request = 0; w_value = 0; w_index = 0 }

abbrev zeros : List ℕ
zeros = 0 ∷ 0 ∷ 0 ∷ []

abbrev bytes : List ℕ
bytes = 1 ∷ 2 ∷ 3 ∷ []

out_IsLaidOut : IsLaidOut 3 out_transfer zeros
out_IsLaidOut = record { told = refl; room = refl; packets = refl }

abbrev all_sent : Delivery
all_sent = record { status = Status.completed; actual_length = 3; packets = []; received = bytes }

out_Fits : Fits all_sent out_transfer zeros
out_Fits = record { same_size = refl; all_packets = refl; inside = omega arith }

program : Unit {0}
unfolding prepared total_len_of iso_part iso_packets_of setup_packet new_transfer fill_buffer
    submit_transfer copy_payload copy_into payload_offset hand_over transfer_callback deliver report
    completed_data control_data first_byte slice bulk_data slice_i32 fill_descriptors await_transfer
    iso_packets
program = tt

run_of_control :
    (new_transfer (λ _. true) true control get_max_lun 2 options >>= λ created. elim created [
      | err e ↦ faults
      | ok t ↦ submit_transfer (pos 0) [] t >>= λ s.
          transfer_callback (
            deliver
              (record {
                status = Status.completed;
                actual_length = 1;
                packets = [];
                received = 0xa1 ∷ 0xfe ∷ 0 ∷ 0 ∷ 2 ∷ 1 ∷ 2 ∷ 0 ∷ 7 ∷ 0 ∷ [];
              })
              s.0)
          >>= λ u. await_transfer u >>= λ r. returns r.1
    ])
    ≡ returns (ok (record { bytes = 7 ∷ []; packets = [] }))
unfolding program
run_of_control = refl

-- A second submission while the first is in flight: Rust panics at the missing buffer.
resubmission_in_flight :
    submit_transfer (pos 0) bytes (concrete no_setup 3 (submitted out_transfer zeros)) ≡ panics
unfolding program
resubmission_in_flight = refl

submit-allocated_example :
    (submit_transfer (pos 0) bytes (concrete no_setup 3 (allocated out_transfer zeros))
      ≡ returns (
        concrete no_setup 3 (after_submit 3 no_setup (pos 0) bytes out_transfer zeros).0,
        (after_submit 3 no_setup (pos 0) bytes out_transfer zeros).1,
      ))
    × IsSound 3 (after_submit 3 no_setup (pos 0) bytes out_transfer zeros).0
submit-allocated_example =
    submit-allocated no_setup 3 out_transfer zeros out_IsLaidOut (pos 0) bytes (omega arith)

transfer_callback-submitted_example :
    transfer_callback (deliver all_sent (concrete no_setup 3 (submitted out_transfer zeros)))
    ≡ returns (
        concrete no_setup 3 (
          finished (outcome_of all_sent out_transfer).0 (outcome_of all_sent out_transfer).1 false))
transfer_callback-submitted_example =
    transfer_callback-submitted no_setup 3 all_sent out_transfer zeros out_IsLaidOut out_Fits

await_transfer-after_await_example :
    await_transfer (concrete no_setup 3 (finished (ok zeros) none false))
    ≡ concrete_result no_setup 3 (after_await no_setup 3 (finished (ok zeros) none false))
await_transfer-after_await_example =
    await_transfer-after_await no_setup 3 (finished (ok zeros) none false)

abbrev in_flight_transfer : LibusbTransfer
in_flight_transfer = record out_transfer { callback = CallbackPointer.transfer_callback }

submitted_Reach :
    Reach
      (concrete no_setup 3 (allocated out_transfer zeros))
      (concrete no_setup 3 (submitted in_flight_transfer bytes))
unfolding program
submitted_Reach = Reach.next Reach.here (Step.submit (pos 0) bytes (ok tt) (omega arith) refl)

Reach-calls_safe_example :
    (cancel_transfer (negsuc 4) (concrete no_setup 3 (submitted in_flight_transfer bytes)) ≢ faults)
    × (drop_transfer (negsuc 4) (concrete no_setup 3 (submitted in_flight_transfer bytes)) ≢ faults)
Reach-calls_safe_example =
    Reach-calls_safe no_setup 3 out_transfer zeros (negsuc 4) out_IsLaidOut submitted_Reach

in_flight_Fits :
    (l : LibusbTransfer) (m : List ℕ)
    → some in_flight_transfer ≡ some l
    → some bytes ≡ some m
    → Fits all_sent l m
in_flight_Fits l m p q = record {
  same_size = ground arith;
  all_packets = ground arith;
  inside = ground arith;
}

Reach-callback_safe_example :
    (v : Transfer) × (transfer_callback
        (deliver all_sent (concrete no_setup 3 (submitted in_flight_transfer bytes)))
      ≡ returns v)
    × (v.is_completed ≡ true)
    × (v.libusb ≡ none)
    × (v.memory ≡ none)
Reach-callback_safe_example =
    Reach-callback_safe no_setup 3 out_transfer zeros all_sent out_IsLaidOut submitted_Reach refl
      in_flight_Fits

submit_transfer-after_callback_example :
    submit_transfer (pos 0) bytes (concrete no_setup 3 (finished (ok zeros) none false)) ≡ faults
unfolding program
submit_transfer-after_callback_example =
    submit_transfer-after_callback
      (deliver all_sent (concrete no_setup 3 (submitted out_transfer zeros)))
      (concrete no_setup 3 (finished (ok zeros) none false)) (pos 0) bytes refl

submit_transfer-after_refusal_example :
    (submit_transfer (negsuc 3) bytes (concrete no_setup 3 (allocated out_transfer zeros)) >>= λ r.
    submit_transfer (pos 0) bytes r.0)
    ≡ faults
unfolding program
submit_transfer-after_refusal_example =
    submit_transfer-after_refusal no_setup 3 out_transfer zeros (negsuc 3) (pos 0) bytes
      {offset = 0} out_IsLaidOut (omega arith) refl refl refl

drop_loaded-race_example :
    ((transfer_callback (deliver all_sent (concrete no_setup 3 (submitted out_transfer zeros)))
        >>= λ u. drop_loaded false (pos 0) u)
      ≡ faults)
    × ((transfer_callback (deliver all_sent (concrete no_setup 3 (submitted out_transfer zeros)))
          >>= λ u. cancel_loaded false (pos 0) u)
        ≡ faults)
drop_loaded-race_example =
    drop_loaded-race no_setup 3 (pos 0) all_sent out_transfer zeros out_IsLaidOut out_Fits
