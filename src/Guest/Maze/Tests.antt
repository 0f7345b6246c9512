-- ===== src/Guest/Maze/Tests.antt =====
-- A report that steers to the right, and the game from its start on.
use masters_sibren_wieme.Prelude.{ℕ, false, Option, some, none, List, [], ◌∷◌}
use masters_sibren_wieme.Guest.Maze.Controller.{Floats}

-- Sticks that never move.
abbrev still : Floats (Unit {0})
still = record {
  lit = λ m k. tt;
  add = λ a b. tt;
  sub = λ a b. tt;
  div = λ a b. tt;
  less = λ a b. false;
}

abbrev to_the_right : List ℕ
to_the_right = 1 ∷ 128 ∷ 128 ∷ 128 ∷ 128 ∷ 0 ∷ 0 ∷ 0 ∷ 2 ∷ 0 ∷ []

abbrev two_rounds : List (Option (List ℕ) × ℕ × ℕ)
two_rounds = (some to_the_right, 200000000, 200000001) ∷ (none, 300000000, 300000001) ∷ []
