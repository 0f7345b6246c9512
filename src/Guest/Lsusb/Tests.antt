-- ===== src/Guest/Lsusb/Tests.antt =====
-- A configuration with an interface, a descriptor of a class, an endpoint and the
-- beginning of another; one that panics.
use masters_sibren_wieme.Prelude.{ℕ, ◌≡◌, List, [], ◌∷◌, ◌++◌, refl, arith, replicate}
use masters_sibren_wieme.Guest.Lsusb.{
  interface_line, endpoint_line, printed, panicked, lines_of, round_at, walk, list_configuration,
}
use masters_sibren_wieme.Guest.Lsusb.Blocks.{
  Descriptor, interface, endpoint, other, block_of, all_lines, list_configuration-block_of,
}

abbrev camera : List Descriptor
camera =
    interface 0 0 1 (14 ∷ 1 ∷ 0 ∷ 0 ∷ [])
    ∷ other 0x24 (1 ∷ 0 ∷ 1 ∷ [])
    ∷ endpoint 0x83 3 16 0 6 []
    ∷ []

abbrev header : List ℕ
header = 9 ∷ 2 ∷ replicate 7 0

list_configuration-block_of_example :
    list_configuration 4 (header ++ block_of camera (7 ∷ 5 ∷ 1 ∷ [])) ≡ printed (all_lines camera)
list_configuration-block_of_example =
    list_configuration-block_of header camera (7 ∷ 5 ∷ 1 ∷ []) 4 refl (tt, ((refl, refl), (tt, tt)))
      (omega arith) (omega arith)

camera_lines : all_lines camera ≡ interface_line 0 0 1 ∷ endpoint_line 0x83 3 16 6 ∷ []
camera_lines = refl

-- An interface that says that it has two bytes, at the end.
cut : list_configuration 4 (header ++ (2 ∷ 4 ∷ [])) ≡ panicked
unfolding walk round_at lines_of
cut = refl
