-- ===== src/Guest/Maze/Board.antt =====
-- usb-wasi-guest/examples/ps5-maze/src/lib.rs, the tiles and the maze that `run` starts with.
use masters_sibren_wieme.Prelude.{
  ℕ, zero, suc, Bool, true, false, Option, none, some, List, [], ◌∷◌, replicate, get_elem?,
}

-- The texts that stand for what is in a cell. `GHOST_INKY` and `VULNERABLE_GHOST` are never put there.
pub data Tile : Type 0 where
  wall food power_pellet empty pacman ghost_blinky ghost_pinky ghost_clyde : Tile

abbrev wall_row : List Tile
wall_row = replicate 30 wall

abbrev row_1 : List Tile
row_1 =
    wall ∷ power_pellet ∷ food ∷ food ∷ food ∷ food ∷ food ∷ food ∷ food ∷ food ∷ food ∷ food ∷ food
    ∷ food ∷ wall ∷ wall ∷ food ∷ food ∷ food ∷ food ∷ food ∷ food ∷ food ∷ food ∷ food ∷ food
    ∷ food ∷ power_pellet ∷ food ∷ wall ∷ []

abbrev row_2 : List Tile
row_2 =
    wall ∷ food ∷ wall ∷ wall ∷ wall ∷ wall ∷ food ∷ wall ∷ wall ∷ food ∷ wall ∷ wall ∷ wall ∷ wall
    ∷ wall ∷ wall ∷ wall ∷ wall ∷ wall ∷ wall ∷ food ∷ wall ∷ wall ∷ food ∷ wall ∷ wall ∷ wall
    ∷ wall ∷ food ∷ wall ∷ []

abbrev row_3 : List Tile
row_3 =
    wall ∷ food ∷ food ∷ food ∷ food ∷ food ∷ food ∷ food ∷ food ∷ food ∷ food ∷ food ∷ food ∷ food
    ∷ food ∷ food ∷ food ∷ food ∷ food ∷ food ∷ food ∷ food ∷ food ∷ food ∷ food ∷ food ∷ food
    ∷ food ∷ food ∷ wall ∷ []

abbrev row_4 : List Tile
row_4 =
    wall ∷ food ∷ wall ∷ wall ∷ wall ∷ wall ∷ food ∷ wall ∷ wall ∷ food ∷ wall ∷ wall ∷ wall ∷ wall
    ∷ wall ∷ wall ∷ wall ∷ wall ∷ wall ∷ wall ∷ food ∷ wall ∷ wall ∷ food ∷ wall ∷ wall ∷ wall
    ∷ wall ∷ food ∷ wall ∷ []

abbrev row_5 : List Tile
row_5 =
    wall ∷ food ∷ food ∷ food ∷ food ∷ food ∷ food ∷ wall ∷ wall ∷ food ∷ food ∷ food ∷ food ∷ food
    ∷ wall ∷ wall ∷ empty ∷ food ∷ food ∷ food ∷ food ∷ wall ∷ wall ∷ food ∷ food ∷ food ∷ food
    ∷ food ∷ food ∷ wall ∷ []

abbrev row_6 : List Tile
row_6 =
    wall ∷ wall ∷ wall ∷ food ∷ food ∷ wall ∷ wall ∷ wall ∷ wall ∷ wall ∷ wall ∷ pacman ∷ empty
    ∷ empty ∷ empty ∷ empty ∷ empty ∷ empty ∷ empty ∷ wall ∷ wall ∷ wall ∷ wall ∷ wall ∷ wall ∷ food
    ∷ food ∷ wall ∷ wall ∷ wall ∷ []

abbrev row_7 : List Tile
row_7 =
    wall ∷ food ∷ food ∷ food ∷ food ∷ food ∷ food ∷ wall ∷ wall ∷ food ∷ food ∷ food ∷ food ∷ food
    ∷ food ∷ food ∷ food ∷ food ∷ food ∷ food ∷ food ∷ wall ∷ wall ∷ food ∷ food ∷ food ∷ food
    ∷ food ∷ empty ∷ wall ∷ []

abbrev row_8 : List Tile
row_8 =
    wall ∷ food ∷ wall ∷ wall ∷ wall ∷ wall ∷ food ∷ wall ∷ wall ∷ food ∷ wall ∷ wall ∷ wall ∷ wall
    ∷ wall ∷ wall ∷ wall ∷ wall ∷ wall ∷ wall ∷ food ∷ wall ∷ wall ∷ food ∷ wall ∷ wall ∷ wall
    ∷ wall ∷ food ∷ wall ∷ []

abbrev row_9 : List Tile
row_9 =
    wall ∷ food ∷ food ∷ food ∷ food ∷ food ∷ food ∷ food ∷ food ∷ food ∷ food ∷ food ∷ food ∷ food
    ∷ wall ∷ wall ∷ food ∷ food ∷ food ∷ food ∷ food ∷ food ∷ food ∷ food ∷ food ∷ food ∷ food
    ∷ food ∷ food ∷ wall ∷ []

abbrev row_10 : List Tile
row_10 =
    wall ∷ food ∷ wall ∷ wall ∷ wall ∷ wall ∷ food ∷ wall ∷ wall ∷ wall ∷ wall ∷ wall ∷ wall ∷ food
    ∷ food ∷ food ∷ food ∷ wall ∷ wall ∷ wall ∷ wall ∷ wall ∷ wall ∷ food ∷ wall ∷ wall ∷ wall
    ∷ wall ∷ food ∷ wall ∷ []

abbrev row_11 : List Tile
row_11 =
    wall ∷ food ∷ food ∷ food ∷ food ∷ food ∷ food ∷ food ∷ food ∷ food ∷ food ∷ food ∷ food ∷ food
    ∷ wall ∷ wall ∷ food ∷ food ∷ food ∷ food ∷ food ∷ food ∷ food ∷ food ∷ food ∷ food ∷ food
    ∷ food ∷ food ∷ wall ∷ []

abbrev row_12 : List Tile
row_12 =
    wall ∷ power_pellet ∷ wall ∷ wall ∷ wall ∷ wall ∷ food ∷ empty ∷ food ∷ food ∷ wall ∷ wall
    ∷ food ∷ food ∷ food ∷ food ∷ food ∷ food ∷ wall ∷ wall ∷ food ∷ food ∷ food ∷ food ∷ wall
    ∷ wall ∷ wall ∷ wall ∷ power_pellet ∷ wall ∷ []

abbrev pub initial_maze : List (List Tile)
initial_maze =
    wall_row ∷ row_1 ∷ row_2 ∷ row_3 ∷ row_4 ∷ row_5 ∷ row_6 ∷ row_7 ∷ row_8 ∷ row_9 ∷ row_10
    ∷ row_11 ∷ row_12 ∷ wall_row ∷ []

abbrev pub is_wall : Tile → Bool
is_wall wall = true
is_wall _ = false

-- `maze[y][x]`
abbrev pub cell_of : Option (List Tile) → ℕ → Option Tile
cell_of none x = none
cell_of (some row) x = get_elem? row x

abbrev pub cell : List (List Tile) → ℕ → ℕ → Option Tile
cell maze y x = cell_of (get_elem? maze y) x

-- `row[x] = tile`, where `x` is in range.
abbrev pub set_tile : List Tile → ℕ → Tile → List Tile
set_tile [] x tile = []
set_tile (t ∷ row) zero tile = tile ∷ row
set_tile (t ∷ row) (suc x) tile = t ∷ set_tile row x tile

abbrev pub set_cell : List (List Tile) → ℕ → ℕ → Tile → List (List Tile)
set_cell [] y x tile = []
set_cell (row ∷ maze) zero x tile = set_tile row x tile ∷ maze
set_cell (row ∷ maze) (suc y) x tile = row ∷ set_cell maze y x tile
