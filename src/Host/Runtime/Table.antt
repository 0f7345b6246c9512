-- ===== src/Host/Runtime/Table.antt =====
-- wasmtime's `ResourceTable`, as far as the host uses it, and what its documentation says of it.
use masters_sibren_wieme.Prelude.{ℕ, ◌≡◌, ◌==◌, Option, none, some, if◌then◌else◌}

-- The resources by their kind: a device, an open handle, or what other parts of the program keep.
pub data Entry : Type 0 where
  device handle foreign : ℕ → Entry

-- A resource of another kind is not found.
abbrev pub as_device : Option Entry → Option ℕ
as_device (some (device dev)) = some dev
as_device (some (handle h)) = none
as_device (some (foreign x)) = none
as_device none = none

abbrev pub as_handle : Option Entry → Option ℕ
as_handle (some (handle h)) = some h
as_handle (some (device dev)) = none
as_handle (some (foreign x)) = none
as_handle none = none

-- `push` gives `none` when the table is full, `delete` when there is no such resource.
pub record ResourceTable (T : Type 0) : Type 0 where
  pub empty : T
  pub get : ℕ → T → Option Entry
  pub push : Entry → T → Option (ℕ × T)
  pub delete : ℕ → T → Option T

pub record IsDocumented {T : Type 0} (tables : ResourceTable T) : Type 0 where
  pub get_empty : (r : ℕ) → tables.get r tables.empty ≡ none
  pub get_push :
      (entry : Entry) (t t' : T) (r q : ℕ)
      → tables.push entry t ≡ some (r, t')
      → tables.get q t' ≡ (if q == r then some entry else tables.get q t)
  pub push_fresh :
      (entry : Entry) (t t' : T) (r : ℕ)
      → tables.push entry t ≡ some (r, t')
      → tables.get r t ≡ none
  pub get_delete :
      (t t' : T) (r q : ℕ)
      → tables.delete r t ≡ some t'
      → tables.get q t' ≡ (if q == r then none else tables.get q t)
  pub delete_present :
      (t : T) (r : ℕ) (entry : Entry)
      → tables.get r t ≡ some entry
      → (t' : T) × (tables.delete r t ≡ some t')
  pub delete_absent : (t : T) (r : ℕ) → tables.get r t ≡ none → tables.delete r t ≡ none
