-- ===== src/Guest/Maze/Walls.antt =====
-- The walls around the maze, and that they hold whatever the controller reports.
use masters_sibren_wieme.Prelude.{
  ℕ, zero, suc, ◌≡◌, refl, ◌<◌, Bool, true, false, ◌&&◌, ◌||◌, Bool-cases, inl, inr, Option, none,
  some, List, [], ◌∷◌, get_elem?, ◌==◌, ==_iff, if◌then◌else◌, arith, ap, sym, ◌∙◌,
}
use masters_sibren_wieme.Guest.Maze.Board.{Tile, is_wall, cell, set_tile, set_cell}

-- What is read after a write, where `here` says that it is the same place.
abbrev pub put : {A : Type 0} → Bool → A → Option A → Option A
put true x (some y) = some x
put true x none = none
put false x o = o

put-none : {A : Type 0} → (here : Bool) (x : A) → put here x none ≡ none
put-none true x = refl
put-none false x = refl

get_elem?-set_tile :
    (row : List Tile) (b x : ℕ) (tile : Tile)
    → get_elem? (set_tile row b tile) x ≡ put (x == b) tile (get_elem? row x)
get_elem?-set_tile [] b x tile = sym (put-none (x == b) tile)
get_elem?-set_tile (t ∷ row) zero zero tile = refl
get_elem?-set_tile (t ∷ row) zero (suc x) tile =
    let e : (suc x == 0) ≡ false = ground arith in rw e refl
get_elem?-set_tile (t ∷ row) (suc b) zero tile =
    let e : (0 == suc b) ≡ false = ground arith in rw e refl
get_elem?-set_tile (t ∷ row) (suc b) (suc x) tile =
    let e : (suc x == suc b) ≡ (x == b) = ground arith in rw e (get_elem?-set_tile row b x tile)

pub cell-set_cell :
    (maze : List (List Tile)) (a b y x : ℕ) (tile : Tile)
    → cell (set_cell maze a b tile) y x ≡ put ((y == a) && (x == b)) tile (cell maze y x)
cell-set_cell [] a b y x tile = sym (put-none ((y == a) && (x == b)) tile)
cell-set_cell (row ∷ maze) zero b zero x tile = get_elem?-set_tile row b x tile
cell-set_cell (row ∷ maze) zero b (suc y) x tile =
    let e : (suc y == 0) ≡ false = ground arith in rw e refl
cell-set_cell (row ∷ maze) (suc a) b zero x tile =
    let e : (0 == suc a) ≡ false = ground arith in rw e refl
cell-set_cell (row ∷ maze) (suc a) b (suc y) x tile =
    let e : (suc y == suc a) ≡ (y == a) = ground arith in rw e (cell-set_cell maze a b y x tile)

abbrev pub is_border : ℕ → ℕ → Bool
is_border y x = (y == 0) || (y == 13) || (x == 0) || (x == 29)

-- There is a cell, and it is a wall if it is at the border.
abbrev pub is_closed : ℕ → ℕ → Option Tile → Bool
is_closed y x none = false
is_closed y x (some tile) = if is_border y x then is_wall tile else true

abbrev pub IsClosed : List (List Tile) → Type 0
IsClosed maze = (y x : ℕ) → y < 14 → x < 30 → is_closed y x (cell maze y x) ≡ true

abbrev all_below : ℕ → (ℕ → Bool) → Bool
all_below zero p = true
all_below (suc n) p = p n && all_below n p

all_below-true : (n : ℕ) (p : ℕ → Bool) (k : ℕ) → all_below n p ≡ true → k < n → p k ≡ true
all_below-true zero p k h small = absurd (omega arith)
all_below-true (suc n) p k h small = elim (Bool-cases (k == n)) [
  | inl same ↦ let now : p n ≡ true = ground arith in ap p ((==_iff k n).0 same) ∙ now
  | inr other ↦
      let later : all_below n p ≡ true = ground arith in all_below-true n p k later (ground arith)
]

abbrev pub check : List (List Tile) → Bool
check maze = all_below 14 (λ y. all_below 30 (λ x. is_closed y x (cell maze y x)))

pub check-IsClosed : (maze : List (List Tile)) → check maze ≡ true → IsClosed maze
check-IsClosed maze h y x low left =
    all_below-true 30 (λ k. is_closed y k (cell maze y k)) x
      (all_below-true 14 (λ k. all_below 30 (λ j. is_closed k j (cell maze k j))) y h low) left

put-is_closed :
    (y x : ℕ) (here : Bool) (tile : Tile) (o : Option Tile)
    → (here ≡ true → is_border y x ≡ false)
    → is_closed y x o ≡ true
    → is_closed y x (put here tile o) ≡ true
put-is_closed y x true tile none inside h = h
put-is_closed y x true tile (some t) inside h = rw (inside refl) refl
put-is_closed y x false tile o inside h = h

pub set_cell-IsClosed :
    (maze : List (List Tile)) (a b : ℕ) (tile : Tile)
    → is_border a b ≡ false
    → IsClosed maze
    → IsClosed (set_cell maze a b tile)
set_cell-IsClosed maze a b tile inside h y x low left = rw (cell-set_cell maze a b y x tile) (
    put-is_closed y x ((y == a) && (x == b)) tile (cell maze y x) (λ e. ground arith)
      (h y x low left))
