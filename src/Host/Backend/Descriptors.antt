-- ===== src/Host/Backend/Descriptors.antt =====
-- `generate_config_descriptor` and the three calls that use it: libusb's tree of interfaces,
-- alternate settings and endpoints, made into the flat list of descriptors.wit.
pub mod Flatten
use masters_sibren_wieme.Prelude.{
  ℕ, ◌≡◌, zero, suc, ◌+◌, Option, none, some, List, [], ◌∷◌, ◌++◌, refl, if◌then◌else◌, length,
  get_elem?, map, All, arith, append_assoc, length-append, ap, ◌∙◌, sym,
}
use masters_sibren_wieme.Prelude.Int.{ℤ, pos, negsuc, is_negative}
use masters_sibren_wieme.Host.Errors.{Result, ok, err, from_raw}
use masters_sibren_wieme.Host.Transfer.{Outcome, returns, faults, panics, waits, ◌>>=◌}

-- `libusb_endpoint_descriptor`
pub record RawEndpoint : Type 0 where
  pub b_length : ℕ
  pub b_descriptor_type : ℕ
  pub b_endpoint_address : ℕ
  pub bm_attributes : ℕ
  pub w_max_packet_size : ℕ
  pub b_interval : ℕ
  pub b_refresh : ℕ
  pub b_synch_address : ℕ

-- `libusb_interface_descriptor`; an array is the memory that its pointer leads to.
pub record RawAltSetting : Type 0 where
  pub b_length : ℕ
  pub b_descriptor_type : ℕ
  pub b_interface_number : ℕ
  pub b_alternate_setting : ℕ
  pub b_num_endpoints : ℕ
  pub b_interface_class : ℕ
  pub b_interface_sub_class : ℕ
  pub b_interface_protocol : ℕ
  pub i_interface : ℕ
  pub endpoint : List RawEndpoint

-- `libusb_interface`
pub record RawInterface : Type 0 where
  pub altsetting : List RawAltSetting
  pub num_altsetting : ℤ

-- `libusb_config_descriptor`
pub record RawConfig : Type 0 where
  pub b_length : ℕ
  pub b_descriptor_type : ℕ
  pub w_total_length : ℕ
  pub b_num_interfaces : ℕ
  pub b_configuration_value : ℕ
  pub i_configuration : ℕ
  pub bm_attributes : ℕ
  pub b_max_power : ℕ
  pub interface : List RawInterface

-- descriptors.wit
pub record EndpointDescriptor : Type 0 where
  pub length : ℕ
  pub descriptor_type : ℕ
  pub endpoint_address : ℕ
  pub attributes : ℕ
  pub max_packet_size : ℕ
  pub interval : ℕ
  pub refresh : ℕ
  pub synch_address : ℕ

pub record InterfaceDescriptor : Type 0 where
  pub length : ℕ
  pub descriptor_type : ℕ
  pub interface_number : ℕ
  pub alternate_setting : ℕ
  pub interface_class : ℕ
  pub interface_subclass : ℕ
  pub interface_protocol : ℕ
  pub interface_index : ℕ
  pub endpoints : List EndpointDescriptor

pub record ConfigurationDescriptor : Type 0 where
  pub length : ℕ
  pub descriptor_type : ℕ
  pub total_length : ℕ
  pub configuration_value : ℕ
  pub configuration_index : ℕ
  pub attributes : ℕ
  pub max_power : ℕ
  pub interfaces : List InterfaceDescriptor

-- `for i in start..start + n { body(array[i], &mut out) }`, which faults past the array's end.
unfoldable pub for_each {ℓ κ} :
    {A : Type ℓ} {S : Type κ} → List A → (A → S → Outcome S) → ℕ → ℕ → S → Outcome S
for_each array body i zero out = returns out
for_each array body i (suc n) out = elim (get_elem? array i) [
  | none ↦ faults
  | some x ↦ body x out >>= (λ out'. for_each array body (suc i) n out')
]

-- `0..num_altsetting` of a C int.
abbrev pub count : ℤ → ℕ
count (pos n) = n
count (negsuc n) = 0

unfoldable pub push_endpoint :
    RawEndpoint → List EndpointDescriptor → Outcome (List EndpointDescriptor)
push_endpoint endpoint endpoints = returns (
    endpoints
    ++ (record {
      length = endpoint.b_length;
      descriptor_type = endpoint.b_descriptor_type;
      endpoint_address = endpoint.b_endpoint_address;
      attributes = endpoint.bm_attributes;
      max_packet_size = endpoint.w_max_packet_size;
      interval = endpoint.b_interval;
      refresh = endpoint.b_refresh;
      synch_address = endpoint.b_synch_address;
    }
        ∷ []))

unfoldable pub push_alt_setting :
    RawAltSetting → List InterfaceDescriptor → Outcome (List InterfaceDescriptor)
push_alt_setting alt_setting interfaces = do
  endpoints ← for_each alt_setting.endpoint push_endpoint 0 alt_setting.b_num_endpoints []
  returns (
      interfaces
      ++ (record {
        length = alt_setting.b_length;
        descriptor_type = alt_setting.b_descriptor_type;
        interface_number = alt_setting.b_interface_number;
        alternate_setting = alt_setting.b_alternate_setting;
        interface_class = alt_setting.b_interface_class;
        interface_subclass = alt_setting.b_interface_sub_class;
        interface_protocol = alt_setting.b_interface_protocol;
        interface_index = alt_setting.i_interface;
        endpoints = endpoints;
      }
          ∷ []))

unfoldable pub push_interface :
    RawInterface → List InterfaceDescriptor → Outcome (List InterfaceDescriptor)
push_interface interface interfaces =
    for_each interface.altsetting push_alt_setting 0 (count interface.num_altsetting) interfaces

unfoldable pub generate_config_descriptor : RawConfig → Outcome ConfigurationDescriptor
generate_config_descriptor raw = do
  interfaces ← for_each raw.interface push_interface 0 raw.b_num_interfaces []
  returns (record {
    length = raw.b_length;
    descriptor_type = raw.b_descriptor_type;
    total_length = raw.w_total_length;
    configuration_value = raw.b_configuration_value;
    configuration_index = raw.i_configuration;
    attributes = raw.bm_attributes;
    max_power = raw.b_max_power;
    interfaces = interfaces;
  })

-- What libusb answers to the three calls: a number, and the descriptor when it is not negative.
pub record ConfigCalls : Type 0 where
  pub get_active_config_descriptor : ℕ → ℤ × RawConfig
  pub get_config_descriptor : ℕ → ℕ → ℤ × RawConfig
  pub get_config_descriptor_by_value : ℕ → ℕ → ℤ × RawConfig

-- The result, and how many descriptors were freed.
unfoldable pub describe : ℤ × RawConfig → Outcome (Result ConfigurationDescriptor × ℕ)
describe answer =
    if is_negative answer.0
    then returns (err (from_raw answer.0), 0)
    else generate_config_descriptor answer.1 >>= (λ descriptor. returns (ok descriptor, 1))

unfoldable pub get_active_configuration_descriptor :
    ConfigCalls → ℕ → Outcome (Result ConfigurationDescriptor × ℕ)
get_active_configuration_descriptor lib device = describe (lib.get_active_config_descriptor device)

unfoldable pub get_configuration_descriptor :
    ConfigCalls → ℕ → ℕ → Outcome (Result ConfigurationDescriptor × ℕ)
get_configuration_descriptor lib device config_index =
    describe (lib.get_config_descriptor device config_index)

unfoldable pub get_configuration_descriptor_by_value :
    ConfigCalls → ℕ → ℕ → Outcome (Result ConfigurationDescriptor × ℕ)
get_configuration_descriptor_by_value lib device config_value =
    describe (lib.get_config_descriptor_by_value device config_value)
