-- ===== src/Guest/Maze/Play.antt =====
-- The game, whatever the controller reports.
pub mod Steps
use masters_sibren_wieme.Prelude.{ℕ, ◌-◌, Bool, true, ◌&&◌, ◌||◌, ◌==◌, ==_refl, sym, ◌∙◌}
use masters_sibren_wieme.Prelude.Int.{ℤ, pos, negsuc}
use masters_sibren_wieme.Guest.Maze.Board.{
  Tile, wall, food, power_pellet, empty, pacman, ghost_blinky, ghost_pinky, ghost_clyde, is_wall,
  cell, set_cell,
}
use masters_sibren_wieme.Guest.Maze.{
  Game, new_game, shifted, eat, enter, try_enter, is_nonzero, move_by,
}
use masters_sibren_wieme.Guest.Maze.Walls.{
  put, cell-set_cell, is_border, is_closed, IsClosed, check-IsClosed, set_cell-IsClosed,
}
use masters_sibren_wieme.Guest.Maze.Controller.{Floats, GamepadState, ControllerType}

module _ {F : Type 0} (floats : Floats F) (type : ControllerType) where
  -- The game after the end of a round.
  abbrev timed : ℕ → Game → Game
  timed loop_now g = record g {
    power_timer = g.power_timer - (loop_now - g.last_frame);
    last_frame = loop_now;
  }
