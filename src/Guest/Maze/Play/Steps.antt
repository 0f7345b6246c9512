-- ===== src/Guest/Maze/Play/Steps.antt =====
-- One step of the player.
use masters_sibren_wieme.Prelude.{
  ℕ, ◌≡◌, ◌^◌, refl, ◌≤◌, ◌<◌, ◌+◌, Bool, true, false, ◌&&◌, ◌||◌, Bool-cases, inl, inr, Option,
  none, some, ◌==◌, ==_refl, arith, sym, ◌∙◌,
}
use masters_sibren_wieme.Prelude.Int.{ℤ, pos, negsuc}
use masters_sibren_wieme.Guest.Maze.Board.{
  Tile, wall, food, power_pellet, empty, pacman, ghost_blinky, ghost_pinky, ghost_clyde, is_wall,
  cell, set_cell,
}
use masters_sibren_wieme.Guest.Maze.{
  Game, new_game, shifted, eat, enter, try_enter, is_nonzero, move_by, direction,
}
use masters_sibren_wieme.Guest.Maze.Walls.{
  put, cell-set_cell, is_border, is_closed, IsClosed, check-IsClosed, set_cell-IsClosed,
}
use masters_sibren_wieme.Guest.Maze.Controller.{Floats, GamepadState}

-- The game goes on: the walls stand, and the player is inside them and shown where it is.
pub record Playing (g : Game) : Type 0 where
  pub closed : IsClosed g.maze
  pub row_inside : (0 < g.current_pos.0) × (g.current_pos.0 < 13)
  pub column_inside : (0 < g.current_pos.1) × (g.current_pos.1 < 29)
  pub shown : cell g.maze g.current_pos.0 g.current_pos.1 ≡ some pacman
  pub alive : g.lives ≡ 3

pub new_game-Playing : (now : ℕ) → Playing (new_game now)
unfolding new_game
new_game-Playing now = record {
  closed = check-IsClosed (new_game now).maze refl;
  row_inside = (omega arith, omega arith);
  column_inside = (omega arith, omega arith);
  shown = refl;
  alive = refl;
}

-- A step of at most one cell.
abbrev pub IsNear : ℤ → Type 0
IsNear d = (p : ℕ) → 0 < p → p < 29 → (shifted p d < p + 2) × (p < shifted p d + 2)

IsNear-back : IsNear (negsuc 0)
IsNear-back p h k = (omega arith, omega arith)

IsNear-none : IsNear (pos 0)
IsNear-none p h k = (omega arith, omega arith)

IsNear-on : IsNear (pos 1)
IsNear-on p h k = (omega arith, omega arith)

pub direction-IsNear :
    {F : Type 0} (floats : Floats F) (state : GamepadState F)
    → IsNear (direction floats state).0 × IsNear (direction floats state).1
unfolding direction
direction-IsNear floats state =
    elim (Bool-cases (state.up || floats.less state.lstick_y (floats.lit (negsuc 0) 1))) [
      | inl up ↦ rw up (IsNear-back, IsNear-none)
      | inr not_up ↦
          elim (Bool-cases (state.down || floats.less (floats.lit (pos 1) 1) state.lstick_y)) [
            | inl down ↦ rw (not_up, down) (IsNear-on, IsNear-none)
            | inr not_down ↦
                elim (Bool-cases
                  (state.left || floats.less state.lstick_x (floats.lit (negsuc 0) 1))) [
                    | inl left ↦ rw (not_up, not_down, left) (IsNear-none, IsNear-back)
                    | inr not_left ↦
                        elim (Bool-cases
                          (state.right || floats.less (floats.lit (pos 1) 1) state.lstick_x)) [
                            | inl right ↦
                                rw (not_up, not_down, not_left, right) (IsNear-none, IsNear-on)
                            | inr not_right ↦
                                rw (not_up, not_down, not_left, not_right)
                                  (IsNear-none, IsNear-none)
                          ]
                  ]
          ]
    ]

-- A score that has room for the points of a cell rises by at most these.
abbrev pub Rises : ℕ → ℕ → Type 0
Rises score score' = score + 50 < 2 ^ 32 → (score ≤ score') × (score' ≤ score + 50)

pub Rises-same : (score : ℕ) → Rises score score
Rises-same score room = (omega arith, omega arith)

-- The game after a step that did not panic.
abbrev pub Continues : Game → Option Game → Type 0
Continues g none = ⊥
Continues g (some g') = Playing g' × Rises g.score g'.score

eat-score :
    (tile : Tile) (g : Game) → Rises g.score (eat tile g).score × ((eat tile g).lives ≡ g.lives)
eat-score wall g = (Rises-same g.score, refl)
eat-score food g = (λ room. (omega arith, omega arith), refl)
eat-score power_pellet g = (λ room. (omega arith, omega arith), refl)
eat-score empty g = (Rises-same g.score, refl)
eat-score pacman g = (Rises-same g.score, refl)
eat-score ghost_blinky g = (Rises-same g.score, refl)
eat-score ghost_pinky g = (Rises-same g.score, refl)
eat-score ghost_clyde g = (Rises-same g.score, refl)

inside-is_border : (y x : ℕ) → 0 < y → y < 13 → 0 < x → x < 29 → is_border y x ≡ false
inside-is_border y x h k l m = ground arith

open-is_border :
    (y x : ℕ) (tile : Tile)
    → is_closed y x (some tile) ≡ true
    → is_wall tile ≡ false
    → is_border y x ≡ false
open-is_border y x tile ok free = elim (Bool-cases (is_border y x)) [
  | inl border ↦ absurd (true-ne-false (sym (simp border at ok) ∙ free))
  | inr inside ↦ inside
]
  where
    true-ne-false : ◌≡◌ {A = Bool} true false → ⊥
    true-ne-false e = cc

put-twice : {A : Type 0} → (here : Bool) (x y z : A) → put true x (put here y (some z)) ≡ some x
put-twice true x y z = refl
put-twice false x y z = refl

enter-Playing :
    (y x now : ℕ) (tile : Tile) (g : Game)
    → Playing g
    → is_border y x ≡ false
    → y < 14
    → x < 30
    → cell g.maze y x ≡ some tile
    → Playing (enter y x now tile g)
enter-Playing y x now tile g h inside low left at =
    let from : is_border g.current_pos.0 g.current_pos.1 ≡ false =
      inside-is_border g.current_pos.0 g.current_pos.1 h.row_inside.0 h.row_inside.1
        h.column_inside.0 h.column_inside.1 in
    let emptied = set_cell g.maze g.current_pos.0 g.current_pos.1 empty in
    record {
      closed =
          set_cell-IsClosed emptied y x pacman inside
            (set_cell-IsClosed g.maze g.current_pos.0 g.current_pos.1 empty from h.closed);
      row_inside = ground arith;
      column_inside = ground arith;
      shown =
          rw
            (
              cell-set_cell emptied y x y x pacman,
              cell-set_cell g.maze g.current_pos.0 g.current_pos.1 y x empty,
              at,
              ==_refl y,
              ==_refl x,
            )
            (put-twice ((y == g.current_pos.0) && (x == g.current_pos.1)) pacman empty tile);
      alive = (eat-score tile g).1 ∙ h.alive;
    }

try_enter-Continues :
    (y x now : ℕ) (o : Option Tile) (g : Game)
    → Playing g
    → y < 14
    → x < 30
    → cell g.maze y x ≡ o
    → is_closed y x o ≡ true
    → Continues g (try_enter y x now o g)
try_enter-Continues y x now none g h low left at ok = absurd (cc)
try_enter-Continues y x now (some tile) g h low left at ok = elim (Bool-cases (is_wall tile)) [
  | inl blocked ↦ rw blocked (h, Rises-same g.score)
  | inr free ↦ rw free (
    enter-Playing y x now tile g h (open-is_border y x tile ok free) low left at,
    (eat-score tile g).0,
  )
]

pub move_by-Continues :
    (d : ℤ × ℤ) (now : ℕ) (g : Game)
    → Playing g
    → IsNear d.0
    → IsNear d.1
    → Continues g (move_by d now g)
unfolding move_by
move_by-Continues d now g h near_y near_x =
    let y = shifted g.current_pos.0 d.0 in
    let x = shifted g.current_pos.1 d.1 in
    let row = near_y g.current_pos.0 h.row_inside.0 (omega (arith, h.row_inside.1)) in
    let column = near_x g.current_pos.1 h.column_inside.0 h.column_inside.1 in
    let low : y < 14 = omega (arith, row.0, h.row_inside.1) in
    let left : x < 30 = omega (arith, column.0, h.column_inside.1) in
    elim (Bool-cases (is_nonzero d.0 || is_nonzero d.1)) [
      | inl moves ↦
          rw moves (
            try_enter-Continues y x now (cell g.maze y x) g h low left refl (h.closed y x low left))
      | inr still ↦ rw still (h, Rises-same g.score)
    ]
