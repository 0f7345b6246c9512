-- ===== src/Guest/Webcam/Negotiation.antt =====
-- usb-wasi-guest/examples/webcam/src/webcam.rs: the negotiation of a stream, once its endpoint is chosen.
pub mod Camera
mod Tests
use masters_sibren_wieme.Prelude.{
  ℕ, ◌+◌, ◌*◌, ◌%◌, ◌^◌, Option, none, some, List, [], ◌∷◌, ◌++◌, leb, if◌then◌else◌, length,
  get_or,
}
use masters_sibren_wieme.Host.Transfer.{TransferType, control, TransferSetup, TransferOptions}
use masters_sibren_wieme.Guest.Webcam.{Candidate, Stream}

-- A call that may fail, on the state of the host.
abbrev pub Action : Type 0 → Type 0 → Type 0
Action S A = S → Option A × S

abbrev pub after : {S A B : Type 0} → Option A × S → (A → Action S B) → Option B × S
after (none, s) f = (none, s)
after (some a, s) f = f a s

infixl 5 ◌>>=◌
abbrev pub ◌>>=◌ : {S A B : Type 0} → Action S A → (A → Action S B) → Action S B
(m >>= f) s = after (m s) f

-- `.ok()`: a failure goes unnoticed.
abbrev pub ignore : {S A : Type 0} → Action S A → Action S (Unit {0})
ignore m s = (some tt, (m s).1)

pub record UvcHost (S : Type 0) : Type 0 where
  pub claim_interface : ℕ → Action S (Unit {0})
  pub set_interface_altsetting : ℕ → ℕ → Action S (Unit {0})
  pub new_transfer : TransferType → TransferSetup → ℕ → TransferOptions → Action S ℕ
  pub submit_transfer : ℕ → List ℕ → Action S (Unit {0})
  pub await_transfer : ℕ → Action S (List ℕ)

abbrev pub setup_of : ℕ → ℕ → ℕ → ℕ → TransferSetup
setup_of request_type request value index = record {
  bm_request_type = request_type;
  b_request = request;
  w_value = value;
  w_index = index;
}

abbrev pub no_timeout : TransferOptions
no_timeout = record { endpoint = 0; timeout_ms = 2000; stream_id = 0; iso_packets = 0 }

-- MJPEG and its first frame size, where the probe is long enough.
abbrev pub choose_format : List ℕ → List ℕ
choose_format (x ∷ y ∷ _ ∷ _ ∷ rest) = x ∷ y ∷ 2 ∷ 1 ∷ rest
choose_format probe = probe

-- `u32::from_le_bytes(negotiated[18..22])`
abbrev pub frame_size_of : List ℕ → ℕ
frame_size_of negotiated =
    if leb 22 (length negotiated)
    then get_or negotiated 18 0
      + 2 ^ 8 * get_or negotiated 19 0
      + 2 ^ 16 * get_or negotiated 20 0
      + 2 ^ 24 * get_or negotiated 21 0
    else 0

module _ {S : Type 0} (host : UvcHost S) where
  unfoldable pub ctrl : TransferSetup → List ℕ → ℕ → Action S (List ℕ)
  ctrl setup payload payload_len = do
    xfer ← host.new_transfer control setup payload_len no_timeout
    _ ← host.submit_transfer xfer payload
    host.await_transfer xfer

  -- `open_uvc_stream` from the claim of the interface on.
  unfoldable pub open_stream : Candidate → Action S Stream
  open_stream c = do
    _ ← host.claim_interface c.interface_number
    _ ← ignore (host.set_interface_altsetting c.interface_number 0)
    probe ← ctrl (setup_of 0xA1 0x81 0x0100 c.interface_number) [] 34
    _ ←
        ctrl (setup_of 0x21 0x01 0x0100 c.interface_number) (choose_format probe)
          (length (choose_format probe) % 2 ^ 32)
    negotiated ←
        ctrl (setup_of 0xA1 0x81 0x0100 c.interface_number) []
          (length (choose_format probe) % 2 ^ 32)
    _ ← ctrl (setup_of 0x21 0x01 0x0200 c.interface_number) negotiated (length negotiated % 2 ^ 32)
    _ ← ignore (ctrl (setup_of 0x21 0x01 0x0B00 0x0200) (1 ∷ []) 1)
    _ ← host.set_interface_altsetting c.interface_number c.alternate_setting
    λ s. (
      some (record {
        ep_addr = c.endpoint_address;
        packet_stride = c.effective;
        num_packets = 32;
        actual_frame_size = frame_size_of negotiated;
      }),
      s,
    )

-- A host that writes down what it is asked, with a camera that answers from a list.
pub data Asked : Type 0 where
  claimed : ℕ → Asked
  alternate : ℕ → ℕ → Asked
  created : TransferType → TransferSetup → ℕ → Asked
  submitted : List ℕ → Asked

abbrev pub Answering : Type 0
Answering = List (Option (List ℕ)) × List Asked

abbrev pub note : {A : Type 0} → Asked → A → Action Answering A
note asked a s = (some a, (s.0, s.1 ++ (asked ∷ [])))

abbrev pub answer : Action Answering (List ℕ)
answer ([], log) = (none, ([], log))
answer (a ∷ answers, log) = (a, (answers, log))

abbrev pub recorder : UvcHost Answering
recorder = record {
  claim_interface = λ i. note (claimed i) tt;
  set_interface_altsetting = λ i a. note (alternate i a) tt;
  new_transfer = λ type setup size opts. note (created type setup size) 0;
  submit_transfer = λ x payload. note (submitted payload) tt;
  await_transfer = λ x. answer;
}

-- What the camera is asked for, up to the commit.
abbrev pub until_commit : Candidate → List ℕ → List ℕ → List Asked
until_commit c probe negotiated =
    let n = length (choose_format probe) % 2 ^ 32 in
    let get = setup_of 0xA1 0x81 0x0100 c.interface_number in
    claimed c.interface_number
    ∷ alternate c.interface_number 0
    ∷ created control get 34
    ∷ submitted []
    ∷ created control (setup_of 0x21 0x01 0x0100 c.interface_number) n
    ∷ submitted (choose_format probe)
    ∷ created control get n
    ∷ submitted []
    ∷ created control (setup_of 0x21 0x01 0x0200 c.interface_number) (length negotiated % 2 ^ 32)
    ∷ submitted negotiated
    ∷ []
