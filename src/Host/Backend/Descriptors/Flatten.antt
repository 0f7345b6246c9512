-- ===== src/Host/Backend/Descriptors/Flatten.antt =====
-- The loops of `generate_config_descriptor` against the flat list that they are meant to make.
use masters_sibren_wieme.Prelude.{
  ℕ, ◌≡◌, suc, some, List, [], ◌∷◌, ◌++◌, refl, length, get_elem?, map, All, arith, append_assoc,
  subst, append-nil, length-append, ap, ◌∙◌,
}
use masters_sibren_wieme.Prelude.Int.{pos}
use masters_sibren_wieme.Host.Transfer.{Outcome, returns, ◌>>=◌}
use masters_sibren_wieme.Host.Backend.Descriptors.{
  RawEndpoint, RawAltSetting, RawInterface, RawConfig, EndpointDescriptor, InterfaceDescriptor,
  ConfigurationDescriptor, for_each, push_endpoint, push_alt_setting, push_interface,
  generate_config_descriptor, count,
}

-- The loop over a whole array whose body only appends the elements' images.
get_elem?-length :
    {A : Type 0} (xs : List A) (y : A) (ys : List A)
    → get_elem? (xs ++ (y ∷ ys)) (length xs) ≡ some y
get_elem?-length [] y ys = refl
get_elem?-length (x ∷ xs) y ys = get_elem?-length xs y ys

abbrev pub images : {A B : Type 0} → (A → List B) → List A → List B
images f [] = []
images f (x ∷ xs) = f x ++ images f xs

for_each-rest :
    {A B : Type 0} (f : A → List B) (body : A → List B → Outcome (List B)) (before rest : List A)
    (out : List B)
    → All (λ x. (o : List B) → body x o ≡ returns (o ++ f x)) rest
    → for_each (before ++ rest) body (length before) (length rest) out
      ≡ returns (out ++ images f rest)
unfolding for_each
for_each-rest f body before [] out h = rw (append-nil out)
for_each-rest f body before (x ∷ rest) out h =
    rw (for_each, get_elem?-length before x rest, h.0 out)
      (subst
        (λ a.
          for_each a body (suc (length before)) (length rest) (out ++ f x)
          ≡ returns (out ++ (f x ++ images f rest)))
        (append_assoc before (x ∷ []) rest)
        (subst
          (λ n.
            for_each ((before ++ (x ∷ [])) ++ rest) body n (length rest) (out ++ f x)
            ≡ returns (out ++ (f x ++ images f rest)))
          (omega (arith, length-append before (x ∷ [])))
          (for_each-rest f body (before ++ (x ∷ [])) rest (out ++ f x) h.1
            ∙ ap returns (append_assoc out (f x) (images f rest)))))

-- The loop from 0 over a whole array.
for_each-images :
    {A B : Type 0} (f : A → List B) (body : A → List B → Outcome (List B)) (xs : List A) (n : ℕ)
    (out : List B)
    → n ≡ length xs
    → All (λ x. (o : List B) → body x o ≡ returns (o ++ f x)) xs
    → for_each xs body 0 n out ≡ returns (out ++ images f xs)
for_each-images f body xs n out e h = rw e (for_each-rest f body [] xs out h)

abbrev pub endpoint_of : RawEndpoint → EndpointDescriptor
endpoint_of e = record {
  length = e.b_length;
  descriptor_type = e.b_descriptor_type;
  endpoint_address = e.b_endpoint_address;
  attributes = e.bm_attributes;
  max_packet_size = e.w_max_packet_size;
  interval = e.b_interval;
  refresh = e.b_refresh;
  synch_address = e.b_synch_address;
}

abbrev pub interface_of : RawAltSetting → InterfaceDescriptor
interface_of a = record {
  length = a.b_length;
  descriptor_type = a.b_descriptor_type;
  interface_number = a.b_interface_number;
  alternate_setting = a.b_alternate_setting;
  interface_class = a.b_interface_class;
  interface_subclass = a.b_interface_sub_class;
  interface_protocol = a.b_interface_protocol;
  interface_index = a.i_interface;
  endpoints = map endpoint_of a.endpoint;
}

abbrev pub configuration_of : RawConfig → ConfigurationDescriptor
configuration_of raw = record {
  length = raw.b_length;
  descriptor_type = raw.b_descriptor_type;
  total_length = raw.w_total_length;
  configuration_value = raw.b_configuration_value;
  configuration_index = raw.i_configuration;
  attributes = raw.bm_attributes;
  max_power = raw.b_max_power;
  interfaces = images (λ i. map interface_of i.altsetting) raw.interface;
}

-- Every count of the descriptor is the length of its array.
abbrev pub IsWellFormed : RawConfig → Type 0
IsWellFormed raw =
    (raw.b_num_interfaces ≡ length raw.interface)
    × All
        (λ i.
          (i.num_altsetting ≡ pos (length i.altsetting))
          × All (λ (a : RawAltSetting). a.b_num_endpoints ≡ length a.endpoint) i.altsetting)
        raw.interface

images-singleton : {A B : Type 0} (f : A → B) (xs : List A) → images (λ x. f x ∷ []) xs ≡ map f xs
images-singleton f [] = refl
images-singleton f (x ∷ xs) = rw (images-singleton f xs)

All-everywhere : {A : Type 0} (P : A → Type 0) (xs : List A) → ((x : A) → P x) → All P xs
All-everywhere P [] h = tt
All-everywhere P (x ∷ xs) h = (h x, All-everywhere P xs h)

All-map_of :
    {A : Type 0} (P Q : A → Type 0) (xs : List A) → ((x : A) → P x → Q x) → All P xs → All Q xs
All-map_of P Q [] f h = tt
All-map_of P Q (x ∷ xs) f h = (f x h.0, All-map_of P Q xs f h.1)

push_endpoint-map :
    (es : List RawEndpoint) (n : ℕ)
    → n ≡ length es
    → for_each es push_endpoint 0 n [] ≡ returns (map endpoint_of es)
unfolding push_endpoint
push_endpoint-map es n h =
    for_each-images (λ e. endpoint_of e ∷ []) push_endpoint es n [] h
      (All-everywhere _ es (λ x o. refl))
    ∙ ap returns (images-singleton endpoint_of es)

push_alt_setting-interface_of :
    (a : RawAltSetting)
    → a.b_num_endpoints ≡ length a.endpoint
    → (o : List InterfaceDescriptor) → push_alt_setting a o ≡ returns (o ++ (interface_of a ∷ []))
unfolding push_alt_setting
push_alt_setting-interface_of a h o =
    ap
      (λ r.
        r
        >>= (λ endpoints. returns (o ++ (record (interface_of a) { endpoints = endpoints } ∷ []))))
      (push_endpoint-map a.endpoint a.b_num_endpoints h)

push_interface-map :
    (i : RawInterface)
    → i.num_altsetting ≡ pos (length i.altsetting)
    → All (λ (a : RawAltSetting). a.b_num_endpoints ≡ length a.endpoint) i.altsetting
    → (o : List InterfaceDescriptor)
    → push_interface i o ≡ returns (o ++ map interface_of i.altsetting)
unfolding push_interface
push_interface-map i h hs o =
    for_each-images (λ a. interface_of a ∷ []) push_alt_setting i.altsetting
      (count i.num_altsetting) o (ap count h)
      (All-map_of _ _ i.altsetting push_alt_setting-interface_of hs)
    ∙ ap (λ l. returns (o ++ l)) (images-singleton interface_of i.altsetting)

-- A configuration whose counts are the lengths of its arrays is described without a fault: each
-- alternate setting of each interface becomes one interface descriptor, in order, with the
-- endpoints of that alternate setting, and every field is carried over.
pub generate_config_descriptor-configuration_of :
    (raw : RawConfig)
    → IsWellFormed raw
    → generate_config_descriptor raw ≡ returns (configuration_of raw)
unfolding generate_config_descriptor
generate_config_descriptor-configuration_of raw h =
    ap
      (λ r.
        r >>= (λ interfaces. returns (record (configuration_of raw) { interfaces = interfaces })))
      (for_each-images (λ i. map interface_of i.altsetting) push_interface raw.interface
        raw.b_num_interfaces [] h.0
        (All-map_of _ _ raw.interface (λ i good. push_interface-map i good.0 good.1) h.1))
