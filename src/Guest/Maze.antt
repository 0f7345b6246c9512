-- ===== src/Guest/Maze.antt =====
-- usb-wasi-guest/examples/ps5-maze/src/lib.rs: the game that the reports of a controller steer. A
-- panic is `none`.
pub mod Board
pub mod Controller
pub mod Walls
pub mod Play
mod Tests
use masters_sibren_wieme.Prelude.{
  ℕ, ◌+◌, ◌-◌, ◌*◌, ◌%◌, ◌^◌, Bool, true, false, not, ◌&&◌, ◌||◌, Option, none, some, List, [], ◌∷◌,
  get_or, ◌==◌, ltb, if◌then◌else◌, length, has_bit, low_bits,
}
use masters_sibren_wieme.Prelude.Int.{ℤ, pos, negsuc}
use masters_sibren_wieme.Host.Backend.{DeviceDescriptor}
use masters_sibren_wieme.Host.Backend.Descriptors.{EndpointDescriptor, InterfaceDescriptor}
use masters_sibren_wieme.Guest.BulkOnly.{◌>>=◌}
use masters_sibren_wieme.Guest.Maze.Board.{
  Tile, wall, food, power_pellet, empty, pacman, ghost_blinky, ghost_pinky, ghost_clyde, is_wall,
  cell, set_cell, initial_maze,
}
use masters_sibren_wieme.Guest.Maze.Controller.{Floats, GamepadState, ControllerType, parse}

module _ {F : Type 0} (floats : Floats F) where
  -- `dy` and `dx`.
  unfoldable pub direction : GamepadState F → ℤ × ℤ
  direction state =
      let low = floats.lit (negsuc 0) 1 in
      let high = floats.lit (pos 1) 1 in
      if state.up || floats.less state.lstick_y low
      then (negsuc 0, pos 0)
      else if state.down || floats.less high state.lstick_y
      then (pos 1, pos 0)
      else if state.left || floats.less state.lstick_x low
      then (pos 0, negsuc 0)
      else if state.right || floats.less high state.lstick_x
      then (pos 0, pos 1)
      else (pos 0, pos 0)

-- The state of the game. Times and durations are in nanoseconds. The score is a u32, which
-- wraps, as in a release build.
pub record Game : Type 0 where
  pub maze : List (List Tile)
  pub current_pos : ℕ × ℕ
  pub score : ℕ  -- u32
  pub lives : ℕ
  pub power_timer : ℕ
  pub last_move : ℕ
  pub last_frame : ℕ

-- The ghosts stand in the maze; nothing moves them.
unfoldable pub new_game : ℕ → Game
new_game now = record {
  maze =
      set_cell (set_cell (set_cell initial_maze 5 16 ghost_blinky) 7 28 ghost_pinky) 5 2
        ghost_clyde;
  current_pos = (6, 11);
  score = 0;
  lives = 3;
  power_timer = 0;
  last_move = now;
  last_frame = now;
}

-- `(p as i32 + d) as usize`
abbrev pub shifted : ℕ → ℤ → ℕ
shifted p (pos d) = (p + d) % 2 ^ 32
shifted p (negsuc d) = (p + 2 ^ 32 - (d + 1)) % 2 ^ 32

-- The points of a cell, and the power that it gives.
abbrev pub eat : Tile → Game → Game
eat food g = record g { score = (g.score + 10) % 2 ^ 32 }
eat power_pellet g = record g { score = (g.score + 50) % 2 ^ 32; power_timer = 10 * 10 ^ 9 }
eat _ g = g

abbrev pub enter : ℕ → ℕ → ℕ → Tile → Game → Game
enter y x now tile g =
    let eaten = eat tile g in
    record eaten {
      maze = set_cell (set_cell g.maze g.current_pos.0 g.current_pos.1 empty) y x pacman;
      current_pos = (y, x);
      last_move = now;
    }

abbrev pub try_enter : ℕ → ℕ → ℕ → Option Tile → Game → Option Game
try_enter y x now none g = none
try_enter y x now (some tile) g = if is_wall tile then some g else some (enter y x now tile g)

-- `dy != 0 || dx != 0`
abbrev pub is_nonzero : ℤ → Bool
is_nonzero (pos n) = not (n == 0)
is_nonzero (negsuc n) = true

unfoldable pub move_by : ℤ × ℤ → ℕ → Game → Option Game
move_by d now g =
    let y = shifted g.current_pos.0 d.0 in
    let x = shifted g.current_pos.1 d.1 in
    if is_nonzero d.0 || is_nonzero d.1 then try_enter y x now (cell g.maze y x) g else some g

-- The end of a round; `true` is the end of the game.
abbrev pub end_round : ℕ → Game → Option (Game × Bool)
end_round loop_now g = some (
  record g { power_timer = g.power_timer - (loop_now - g.last_frame); last_frame = loop_now },
  g.lives == 0,
)

module _ {F : Type 0} (floats : Floats F) where
  -- A report that came in at `now`, or a failed transfer; 150 ms stand between two moves.
  unfoldable pub on_report : ControllerType → Option (List ℕ) → ℕ → Game → Option Game
  on_report type none now g = some g
  on_report type (some bytes) now g =
      if ltb (150 * 10 ^ 6) (now - g.last_move)
      then move_by (direction floats (parse floats type bytes)) now g
      else some g

  -- One round of the loop, with the times at which it looks at the clock, if a transfer can be created
  -- and the screen can be written.
  unfoldable pub round : ControllerType → Option (List ℕ) → ℕ → ℕ → Game → Option (Game × Bool)
  round type report now loop_now g = on_report type report now g >>= end_round loop_now

  -- What one round meets: the report, if there is one, and the two times.
  abbrev pub Input : Type 0
  Input = Option (List ℕ) × ℕ × ℕ

  abbrev pub unless_over : (Game → Option (Game × Bool)) → Game × Bool → Option (Game × Bool)
  unless_over rest (g, true) = some (g, true)
  unless_over rest (g, false) = rest g

  -- The loop, over the inputs that it meets until it ends.
  unfoldable pub rounds : ControllerType → List Input → Game → Option (Game × Bool)
  rounds type [] g = some (g, false)
  rounds type ((report, now, loop_now) ∷ inputs) g =
      round type report now loop_now g >>= unless_over (rounds type inputs)
