-- ===== src/Guest/BulkOnly/Native/Tests.antt =====
-- A bus that answers reads from a list, with the documented laws, and the runs on it: an interface
-- that lists its outward endpoint first, and a device that ends its status after the signature.
use masters_sibren_wieme.Prelude.{
  ℕ, ◌≡◌, ◌≤◌, ◌==◌, Bool, true, false, Option, none, some, List, [], ◌∷◌, refl, ap, if◌then◌else◌,
  length, has_bit, low_bits, take, replicate, arith, length-take,
}
use masters_sibren_wieme.Host.Transfer.{bulk, control}
use masters_sibren_wieme.Host.Backend.Descriptors.{EndpointDescriptor}
use masters_sibren_wieme.Guest.BulkOnly.{
  BulkOnlyTransportDevice, BulkOnlyTransportCommandBlock, inward, outward, ok, err, incorrect_tag,
  is_sendable, get_tag, find_endpoints as wit_endpoints,
}
use masters_sibren_wieme.Guest.BulkOnly.Bytes.{le_bytes}
use masters_sibren_wieme.Guest.BulkOnly.Samples.{bytes_crate, bytes_crate-IsDocumented}
use masters_sibren_wieme.Guest.BulkOnly.Native.{
  Rusb, IsRusb, ConfigDescriptor, is_bulk, is_inward, filled, cbw_of, find_bulk, find_endpoints,
  find_interface, new_device, command_in, status_of,
}
use masters_sibren_wieme.Guest.BulkOnly.Native.Endpoints.{find_endpoints-order, bulk_of}
use masters_sibren_wieme.Guest.BulkOnly.Native.Answers.{command_in-filled}

abbrev answered : ℕ → List (List ℕ) → Option (List ℕ × List (List ℕ))
answered size [] = none
answered size (answer ∷ answers) = some (take size answer, answers)

abbrev endpoint_at : ℕ → ℕ → EndpointDescriptor
endpoint_at address attributes = record {
  length = 7;
  descriptor_type = 5;
  endpoint_address = address;
  attributes = attributes;
  max_packet_size = 512;
  interval = 0;
  refresh = 0;
  synch_address = 0;
}

-- The outward endpoint first, as many sticks have it.
abbrev outward_first : List EndpointDescriptor
outward_first = endpoint_at 2 2 ∷ endpoint_at 0x83 3 ∷ endpoint_at 0x81 2 ∷ []

abbrev inward_first : List EndpointDescriptor
inward_first = endpoint_at 0x81 2 ∷ endpoint_at 2 2 ∷ []

abbrev config_of : List EndpointDescriptor → ConfigDescriptor
config_of endpoints = record {
  number = 1;
  interfaces = record { number = 0; descriptors = endpoints ∷ [] } ∷ [];
}

-- The bus, which hands a configuration that is set to the next read, with the interface of its one device and its active configuration.
abbrev bus_of : List EndpointDescriptor → ℕ → Rusb (List (List ℕ))
bus_of endpoints active = record {
  direction = λ ep. if has_bit 7 ep.endpoint_address then inward else outward;
  transfer_type = λ ep. if low_bits ep.attributes 2 == 2 then bulk else control;
  config_descriptor = λ c s. some (config_of endpoints);
  open_device = λ s. some s;
  set_auto_detach_kernel_driver = λ on s. s;
  reset = λ s. some s;
  active_configuration = λ s. some (active, s);
  set_active_configuration = λ c s. some ((c ∷ []) ∷ s);
  claim_interface = λ i s. some s;
  read_control = λ type request value index size s. answered size s;
  read_bulk = λ endpoint size s. answered size s;
  write_bulk = λ endpoint bytes s. some s;
}

abbrev bytes_of : Option (List ℕ × List (List ℕ)) → List ℕ
bytes_of none = []
bytes_of (some r) = r.0

length-answered : (size : ℕ) (s : List (List ℕ)) → length (bytes_of (answered size s)) ≤ size
length-answered size [] = omega arith
length-answered size (answer ∷ answers) = omega (arith, length-take size answer)

is_inward-if : (c : Bool) → is_inward (if c then inward else outward) ≡ c
is_inward-if true = refl
is_inward-if false = refl

is_bulk-if : (c : Bool) → is_bulk (if c then bulk else control) ≡ c
is_bulk-if true = refl
is_bulk-if false = refl

bus_of-IsRusb :
    (endpoints : List EndpointDescriptor) (active : ℕ) → IsRusb (bus_of endpoints active)
bus_of-IsRusb endpoints active = record {
  directions = λ ep. is_inward-if (has_bit 7 ep.endpoint_address);
  types = λ ep. is_bulk-if (low_bits ep.attributes 2 == 2);
  reads = λ endpoint size s s1 bytes read.
      omega (arith, length-answered size s, ap (λ r. length (bytes_of r)) read);
}

-- The bus answers the next read with the configuration that is set, here GET MAX LUN: it is the index 3
-- that was given, and not the number 1 of the configuration.
opened :
    new_device (bus_of inward_first 0) 3 0 ([] ∷ [])
    ≡ some (
      record { bulk_in = 0x81; bulk_out = 2; current_tag = 0; selected_lun = 0; max_lun = 3 },
      [] ∷ [],
    )
unfolding new_device find_interface find_endpoints find_bulk
opened = refl

not_opened : new_device (bus_of outward_first 1) 0 0 ([] ∷ []) ≡ none
unfolding new_device find_interface find_endpoints find_bulk
not_opened = refl

find_endpoints-order_example :
    (bulk_of outward_first ≡ 0x81 ∷ 2 ∷ []
      → (find_endpoints (bus_of outward_first 1) outward_first
          ≡ some (wit_endpoints outward_first 0 0))
        × (wit_endpoints outward_first 0 0 ≡ (0x81, 2)))
    × (bulk_of outward_first ≡ 2 ∷ 0x81 ∷ []
        → (find_endpoints (bus_of outward_first 1) outward_first ≡ none)
          × (wit_endpoints outward_first 0 0 ≡ (0x81, 2)))
find_endpoints-order_example =
    find_endpoints-order (bus_of outward_first 1) (bus_of-IsRusb outward_first 1) outward_first 0x81
      2 refl refl

abbrev stick : BulkOnlyTransportDevice
stick = record { bulk_in = 0x81; bulk_out = 2; current_tag = 0; selected_lun = 0; max_lun = 0 }

-- READ CAPACITY (10)
abbrev capacity : BulkOnlyTransportCommandBlock
capacity = record { command_block = 0x25 ∷ replicate 9 0; transfer_length = 8 }

sendable : is_sendable (cbw_of stick capacity inward) ≡ true
unfolding get_tag
sendable = refl

-- Three of the eight bytes of the answer, and four of the thirteen of the status.
command_in-filled_example :
    (command_in
        (bus_of inward_first 1)
        bytes_crate
        capacity
        stick
        ((0 ∷ 0 ∷ 3 ∷ []) ∷ le_bytes 0x53425355 ∷ [])
      ≡ some (
        (if 0 == 0
            then ok (
              record { tag = 0; data_residue = 0; status = status_of 0 },
              filled 8 (0 ∷ 0 ∷ 3 ∷ []),
            )
            else err incorrect_tag),
        record stick { current_tag = 1 },
        [],
      ))
    × (length (filled 8 (0 ∷ 0 ∷ 3 ∷ [])) ≡ 8)
command_in-filled_example =
    command_in-filled bytes_crate bytes_crate-IsDocumented 0 0 0 (omega arith) (omega arith)
      (bus_of inward_first 1) (bus_of-IsRusb inward_first 1) stick capacity
      ((0 ∷ 0 ∷ 3 ∷ []) ∷ le_bytes 0x53425355 ∷ []) ((0 ∷ 0 ∷ 3 ∷ []) ∷ le_bytes 0x53425355 ∷ [])
      (le_bytes 0x53425355 ∷ []) [] (0 ∷ 0 ∷ 3 ∷ []) (le_bytes 0x53425355) sendable refl refl refl
      refl
