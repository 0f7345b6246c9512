-- ===== src/Guest/Webcam/Negotiation/Tests.antt =====
-- A camera that takes every probe as it is and refuses the white balance, and the handshake with it.
use masters_sibren_wieme.Prelude.{
  ℕ, Option, none, some, List, [], ◌∷◌, ◌++◌, ◌==◌, if◌then◌else◌, replicate,
}
use masters_sibren_wieme.Host.Transfer.{TransferSetup}
use masters_sibren_wieme.Guest.BulkOnly.Bytes.{le_bytes}
use masters_sibren_wieme.Guest.Webcam.{Candidate}
use masters_sibren_wieme.Guest.Webcam.Negotiation.{UvcHost, setup_of}

record Camera : Type 0 where
  probe : List ℕ
  committed : List ℕ
  setting : ℕ
  request : TransferSetup
  payload : List ℕ

abbrev respond : Camera → Option (List ℕ) × Camera
respond s =
    if s.request.bm_request_type == 0xA1
    then (some s.probe, s)
    else if s.request.w_value == 0x0100
    then (some [], record s { probe = s.payload })
    else if s.request.w_value == 0x0200
    then (some [], record s { committed = s.payload })
    else (none, s)

abbrev camera_host : UvcHost Camera
camera_host = record {
  claim_interface = λ i s. (some tt, s);
  set_interface_altsetting = λ i a s. (some tt, record s { setting = a });
  new_transfer = λ type setup n opts s. (some 0, record s { request = setup });
  submit_transfer = λ x payload s. (some tt, record s { payload = payload });
  await_transfer = λ x s. respond s;
}

abbrev keeps : List ℕ → List ℕ
keeps probe = probe

abbrev big_setting : Candidate
big_setting = record {
  interface_number = 1;
  alternate_setting = 2;
  endpoint_address = 0x81;
  effective = 3072;
}

-- The bytes behind the frame of a probe, with a frame size of 614,400 bytes.
abbrev rest_of_probe : List ℕ
rest_of_probe = replicate 14 0 ++ (le_bytes 614400 ++ replicate 4 0)

abbrev idle : Camera
idle = record {
  probe = 0 ∷ 0 ∷ 1 ∷ 3 ∷ rest_of_probe;
  committed = [];
  setting = 0;
  request = setup_of 0 0 0 0;
  payload = [];
}
