-- ===== src/Bench/Csv/Reader.antt =====
-- A reader of comma separated values by the common rules: a field that begins with a quote ends with the
-- quote that no other quote follows, and every other field has no quote in it.
use masters_sibren_wieme.Prelude.{ℕ, Option, none, some, List, [], ◌∷◌, ◌++◌, ◌==◌, if◌then◌else◌}

pub data Kind : Type 0 where
  comma quote newline return_kind plain : Kind

abbrev pub kind : ℕ → Kind
kind b =
    if b == 44
    then comma
    else if b == 34
    then quote
    else if b == 10
    then newline
    else if b == 13
    then return_kind
    else plain

pub data Mode : Type 0 where
  at_start bare quoted quote_seen : Mode

pub data Step : Type 0 where
  add skip : Mode → Step
  end_field end_record malformed : Step

abbrev pub step : Mode → Kind → Step
step at_start comma = end_field
step at_start quote = skip quoted
step at_start newline = end_record
step at_start return_kind = malformed
step at_start plain = add bare
step bare comma = end_field
step bare quote = malformed
step bare newline = end_record
step bare return_kind = malformed
step bare plain = add bare
step quoted comma = add quoted
step quoted quote = skip quote_seen
step quoted newline = add quoted
step quoted return_kind = add quoted
step quoted plain = add quoted
step quote_seen comma = end_field
step quote_seen quote = add quoted
step quote_seen newline = end_record
step quote_seen return_kind = malformed
step quote_seen plain = malformed

abbrev pub Fields : Type 0
Fields = List (List ℕ)

abbrev pub emit : Fields → Option (List Fields) → Option (List Fields)
emit fields none = none
emit fields (some later) = some (fields ∷ later)

abbrev pub act :
    Step
    → ℕ
    → (Mode → List ℕ → Fields → Option (List Fields))
    → List ℕ
    → Fields
    → Option (List Fields)
act (add mode) b rest field fields = rest mode (field ++ (b ∷ [])) fields
act (skip mode) b rest field fields = rest mode field fields
act end_field b rest field fields = rest at_start [] (fields ++ (field ∷ []))
act end_record b rest field fields = emit (fields ++ (field ∷ [])) (rest at_start [] [])
act malformed b rest field fields = none

-- A text ends with the end of a record.
abbrev pub at_end : Mode → Fields → Option (List Fields)
at_end at_start [] = some []
at_end _ _ = none

abbrev pub read_text : Mode → List ℕ → Fields → List ℕ → Option (List Fields)
read_text mode field fields [] = at_end mode fields
read_text mode field fields (b ∷ text) =
    act (step mode (kind b)) b (λ m f fs. read_text m f fs text) field fields

abbrev pub read_csv : List ℕ → Option (List Fields)
read_csv text = read_text at_start [] [] text
