-- ===== src/Guest/Webcam/Negotiation/Camera.antt =====
-- The handshake of open_uvc_stream with a camera that keeps the probe and the commit control of the USB
-- video class.
use masters_sibren_wieme.Prelude.{ℕ, ◌≡◌, ◌≤◌, some, List, [], ◌∷◌, length}
use masters_sibren_wieme.Host.Transfer.{control, TransferSetup}
use masters_sibren_wieme.Guest.Webcam.Negotiation.{UvcHost, Action, ◌>>=◌, setup_of, no_timeout}

-- The three calls of a control transfer.
abbrev pub control_transfer :
    {S : Type 0} → UvcHost S → TransferSetup → List ℕ → ℕ → Action S (List ℕ)
control_transfer host setup payload n =
    host.new_transfer control setup n no_timeout
    >>= (λ xfer. host.submit_transfer xfer payload >>= (λ sent. host.await_transfer xfer))

-- A camera behind one interface of a host: its current probe, which it makes of one that is set by
-- `negotiate`, with as many bytes, what is committed, and the alternate setting of the interface. A
-- commit is taken when it is the current probe; the request for the white balance may fail.
pub record IsCamera {S : Type 0} (host : UvcHost S) (interface : ℕ) (negotiate : List ℕ → List ℕ)
    (current committed : S → List ℕ) (setting : S → ℕ) : Type 0 where
  pub sized : (probe : List ℕ) → length (negotiate probe) ≡ length probe
  pub claims :
      (s : S)
      → (s' : S) × (host.claim_interface interface s ≡ (some tt, s')) × (current s' ≡ current s)
  pub alternates :
      (a : ℕ) (s : S)
      → (s' : S) × (host.set_interface_altsetting interface a s ≡ (some tt, s'))
        × (current s' ≡ current s)
        × (committed s' ≡ committed s)
        × (setting s' ≡ a)
  pub gets :
      (n : ℕ) (s : S)
      → length (current s) ≤ n
      → (s' : S) × (control_transfer host (setup_of 0xA1 0x81 0x0100 interface) [] n s
          ≡ (some (current s), s'))
        × (current s' ≡ current s)
  pub sets :
      (probe : List ℕ) (s : S)
      → (s' : S) × (sent : List ℕ) × (control_transfer host
            (setup_of 0x21 0x01 0x0100 interface)
            probe
            (length probe)
            s
          ≡ (some sent, s'))
        × (current s' ≡ negotiate probe)
  pub commits :
      (probe : List ℕ) (s : S)
      → current s ≡ probe
      → (s' : S) × (sent : List ℕ) × (control_transfer host
            (setup_of 0x21 0x01 0x0200 interface)
            probe
            (length probe)
            s
          ≡ (some sent, s'))
        × (committed s' ≡ probe)
  pub balances :
      (s : S)
      → committed (control_transfer host (setup_of 0x21 0x01 0x0B00 0x0200) (1 ∷ []) 1 s).1
        ≡ committed s
