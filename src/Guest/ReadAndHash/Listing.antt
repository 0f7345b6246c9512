-- ===== src/Guest/ReadAndHash/Listing.antt =====
-- usb-wasi-guest/examples/read_and_hash.rs, list_directory: the sorted listing of a directory.
use mathlib.Core.List.{Perm}
use mathlib.Core.List.Perm
use masters_sibren_wieme.Prelude.{
  ℕ, ◌≡◌, refl, Bool, true, false, ◌&&◌, ◌||◌, List, [], ◌∷◌, ◌==◌, ltb, if◌then◌else◌, map, arith,
  Bool-cases, inl, inr, All,
}

-- `exfat::directory::Item`, as far as the listing reads it.
pub data Item : Type 0 where
  file : List ℕ → ℕ → Item
  directory : List ℕ → Item

pub record Entry : Type 0 where
  pub name : List ℕ
  pub size : ℕ
  pub is_dir : Bool

abbrev pub entry_of : Item → Entry
entry_of (file name len) = record { name = name; size = len; is_dir = false }
entry_of (directory name) = record { name = name; size = 0; is_dir = true }

-- Whether the comparison of two names, by their bytes, is not `Greater`.
unfoldable pub leb_names : List ℕ → List ℕ → Bool
leb_names [] ys = true
leb_names (x ∷ xs) [] = false
leb_names (x ∷ xs) (y ∷ ys) = ltb x y || ((x == y) && leb_names xs ys)

-- The same of two entries: directories first.
unfoldable pub leb_kinds : Bool → Bool → Bool → Bool
leb_kinds true false names = true
leb_kinds false true names = false
leb_kinds true true names = names
leb_kinds false false names = names

unfoldable pub leb_entries : Entry → Entry → Bool
leb_entries a b = leb_kinds a.is_dir b.is_dir (leb_names a.name b.name)

-- `sort_by`, which is stable: an element goes before the first one that is not less.
unfoldable pub insert_by : Entry → List Entry → List Entry
insert_by x [] = x ∷ []
insert_by x (y ∷ ys) = let rest = insert_by x ys in if leb_entries x y then x ∷ y ∷ ys else y ∷ rest

unfoldable pub sort_by : List Entry → List Entry
sort_by [] = []
sort_by (x ∷ xs) = insert_by x (sort_by xs)

unfoldable pub list_directory : List Item → List Entry
list_directory items = sort_by (map entry_of items)

leb_names_total : (xs ys : List ℕ) → leb_names xs ys ≡ false → leb_names ys xs ≡ true
unfolding leb_names
leb_names_total [] ys h = absurd (cc)
leb_names_total (x ∷ xs) [] h = refl
leb_names_total (x ∷ xs) (y ∷ ys) h = ground (arith, leb_names_total xs ys)

leb_names_trans :
    (xs ys zs : List ℕ) → leb_names xs ys ≡ true → leb_names ys zs ≡ true → leb_names xs zs ≡ true
unfolding leb_names
leb_names_trans [] ys zs h k = refl
leb_names_trans (x ∷ xs) [] zs h k = absurd (cc)
leb_names_trans (x ∷ xs) (y ∷ ys) [] h k = absurd (cc)
leb_names_trans (x ∷ xs) (y ∷ ys) (z ∷ zs) h k = ground (arith, leb_names_trans xs ys zs)

leb_kinds_total :
    (a b p q : Bool) → (p ≡ false → q ≡ true) → leb_kinds a b p ≡ false → leb_kinds b a q ≡ true
unfolding leb_kinds
leb_kinds_total true true p q t h = t h
leb_kinds_total true false p q t h = absurd (cc)
leb_kinds_total false true p q t h = refl
leb_kinds_total false false p q t h = t h

leb_kinds_trans :
    (a b c p q r : Bool)
    → (p ≡ true → q ≡ true → r ≡ true)
    → leb_kinds a b p ≡ true
    → leb_kinds b c q ≡ true
    → leb_kinds a c r ≡ true
unfolding leb_kinds
leb_kinds_trans true true true p q r t h k = t h k
leb_kinds_trans true true false p q r t h k = refl
leb_kinds_trans true false true p q r t h k = absurd (cc)
leb_kinds_trans true false false p q r t h k = refl
leb_kinds_trans false true c p q r t h k = absurd (cc)
leb_kinds_trans false false true p q r t h k = absurd (cc)
leb_kinds_trans false false false p q r t h k = t h k

abbrev pub IsBefore : Entry → Entry → Type 0
IsBefore a b = leb_entries a b ≡ true

IsBefore-total : (a b : Entry) → leb_entries a b ≡ false → IsBefore b a
unfolding leb_entries
IsBefore-total a b h =
    leb_kinds_total a.is_dir b.is_dir (leb_names a.name b.name) (leb_names b.name a.name)
      (leb_names_total a.name b.name) h

IsBefore-trans : (a b c : Entry) → IsBefore a b → IsBefore b c → IsBefore a c
unfolding leb_entries
IsBefore-trans a b c h k =
    leb_kinds_trans a.is_dir b.is_dir c.is_dir (leb_names a.name b.name) (leb_names b.name c.name)
      (leb_names a.name c.name) (leb_names_trans a.name b.name c.name) h k

-- Every entry stands before all that follow it.
abbrev pub IsSorted : List Entry → Type 0
IsSorted [] = Unit {0}
IsSorted (x ∷ xs) = All (IsBefore x) xs × IsSorted xs

-- What the order of a listing means: no directory comes after a file, and names ascend within a kind.
pub record Precedes (a b : Entry) : Type 0 where
  pub directories_first : a.is_dir ≡ false → b.is_dir ≡ false
  pub names_ascend : a.is_dir ≡ b.is_dir → leb_names a.name b.name ≡ true

leb_kinds-cases :
    (p q names : Bool)
    → leb_kinds p q names ≡ true
    → (p ≡ false → q ≡ false) × (p ≡ q → names ≡ true)
unfolding leb_kinds
leb_kinds-cases true true names h = (λ e. absurd (cc), λ e. h)
leb_kinds-cases true false names h = (λ e. absurd (cc), λ e. absurd (cc))
leb_kinds-cases false true names h = absurd (cc)
leb_kinds-cases false false names h = (λ e. refl, λ e. h)

IsBefore-Precedes : (a b : Entry) → IsBefore a b → Precedes a b
unfolding leb_entries
IsBefore-Precedes a b h =
    let cases = leb_kinds-cases a.is_dir b.is_dir (leb_names a.name b.name) h in
    record { directories_first = cases.0; names_ascend = cases.1 }

-- Every entry precedes all that follow it.
abbrev pub IsOrdered : List Entry → Type 0
IsOrdered [] = Unit {0}
IsOrdered (x ∷ xs) = All (Precedes x) xs × IsOrdered xs

All-Precedes : (a : Entry) (xs : List Entry) → All (IsBefore a) xs → All (Precedes a) xs
All-Precedes a [] h = tt
All-Precedes a (x ∷ xs) h = (IsBefore-Precedes a x h.0, All-Precedes a xs h.1)

IsSorted-IsOrdered : (xs : List Entry) → IsSorted xs → IsOrdered xs
IsSorted-IsOrdered [] h = tt
IsSorted-IsOrdered (x ∷ xs) h = (All-Precedes x xs h.0, IsSorted-IsOrdered xs h.1)

All-IsBefore-trans :
    (a b : Entry) (xs : List Entry) → IsBefore a b → All (IsBefore b) xs → All (IsBefore a) xs
All-IsBefore-trans a b [] h k = tt
All-IsBefore-trans a b (x ∷ xs) h k = (IsBefore-trans a b x h k.0, All-IsBefore-trans a b xs h k.1)

All-insert_by :
    (a x : Entry) (ys : List Entry)
    → IsBefore a x
    → All (IsBefore a) ys
    → All (IsBefore a) (insert_by x ys)
unfolding insert_by
All-insert_by a x [] h k = (h, tt)
All-insert_by a x (y ∷ ys) h k = elim (Bool-cases (leb_entries x y)) [
  | inl before ↦ rw before (h, k)
  | inr after ↦ rw after (k.0, All-insert_by a x ys h k.1)
]

insert_by-IsSorted : (x : Entry) (ys : List Entry) → IsSorted ys → IsSorted (insert_by x ys)
unfolding insert_by
insert_by-IsSorted x [] h = (tt, tt)
insert_by-IsSorted x (y ∷ ys) h = elim (Bool-cases (leb_entries x y)) [
  | inl before ↦ rw before ((before, All-IsBefore-trans x y ys before h.0), h)
  | inr after ↦
      rw after (All-insert_by y x ys (IsBefore-total x y after) h.0, insert_by-IsSorted x ys h.1)
]

insert_by-perm : (x : Entry) (ys : List Entry) → Perm (insert_by x ys) (x ∷ ys)
unfolding insert_by
insert_by-perm x [] = Perm.rfl
insert_by-perm x (y ∷ ys) = elim (Bool-cases (leb_entries x y)) [
  | inl before ↦ rw before Perm.rfl
  | inr after ↦ rw after (Perm.trans (Perm.cons y (insert_by-perm x ys)) (Perm.swap x y ys))
]

sort_by-IsSorted : (xs : List Entry) → IsSorted (sort_by xs)
unfolding sort_by
sort_by-IsSorted [] = tt
sort_by-IsSorted (x ∷ xs) = insert_by-IsSorted x (sort_by xs) (sort_by-IsSorted xs)

sort_by-perm : (xs : List Entry) → Perm (sort_by xs) xs
unfolding sort_by
sort_by-perm [] = Perm.rfl
sort_by-perm (x ∷ xs) = Perm.trans (insert_by-perm x (sort_by xs)) (Perm.cons x (sort_by-perm xs))

-- The listing of a directory has exactly its items, each as often as it is there, directories before
-- files, and of each kind in the order of their names.
pub list_directory-sorted :
    (items : List Item)
    → Perm (list_directory items) (map entry_of items) × IsOrdered (list_directory items)
unfolding list_directory
list_directory-sorted items = (
  sort_by-perm (map entry_of items),
  IsSorted-IsOrdered (sort_by (map entry_of items)) (sort_by-IsSorted (map entry_of items)),
)
