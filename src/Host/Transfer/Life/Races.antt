-- ===== src/Host/Transfer/Life/Races.antt =====
-- The callback runs on libusb's event thread, and no lock orders it with the host calls
-- (usb-wasi-host/src/main.rs): between the load of `completed` and the use of the libusb transfer
-- it can run as a whole.
use masters_sibren_wieme.Prelude.{ℕ, ◌≡◌, refl, List}
use masters_sibren_wieme.Prelude.Int.{ℤ}
use masters_sibren_wieme.Host.Transfer.{TransferSetup, LibusbTransfer, faults, ◌>>=◌}
use masters_sibren_wieme.Host.Transfer.Completion.{Delivery, deliver, transfer_callback}
use masters_sibren_wieme.Host.Transfer.Calls.{libusb_cancel, cancel_loaded, drop_loaded}
use masters_sibren_wieme.Host.Transfer.Life.{submitted, IsLaidOut, Fits, concrete}
use masters_sibren_wieme.Host.Transfer.Life.Finish.{transfer_callback-submitted}

-- If the callback of a transfer in flight runs after `drop` or `cancel_transfer` has loaded
-- `completed` as false, the call then hands the freed libusb transfer to libusb.
pub drop_loaded-race :
    (setup : TransferSetup) (buf_len : ℕ) (rc : ℤ) (d : Delivery) (l : LibusbTransfer) (m : List ℕ)
    → IsLaidOut buf_len l m
    → Fits d l m
    → ((transfer_callback (deliver d (concrete setup buf_len (submitted l m))) >>= λ u.
          drop_loaded (concrete setup buf_len (submitted l m)).is_completed rc u)
        ≡ faults)
      × ((transfer_callback (deliver d (concrete setup buf_len (submitted l m))) >>= λ u.
            cancel_loaded (concrete setup buf_len (submitted l m)).is_completed rc u)
          ≡ faults)
unfolding drop_loaded cancel_loaded libusb_cancel
drop_loaded-race setup buf_len rc d l m laid fits =
    rw (transfer_callback-submitted setup buf_len d l m laid fits) (refl, refl)
