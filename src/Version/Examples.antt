-- ===== src/Version/Examples.antt =====
-- A start on which the first call finds no program.
use xenomods.Base.{ℕ, ◌≡◌, arith, none, some, [], ◌∷◌, ◌++◌, replicate, ◌≢◌}
use xenomods.Version.Runtime.{
  runtime_game, runtime_games, no_answers, game_of_program, runtime_game-settles,
}

abbrev program : ℕ
program = 0x0100_E950_0403_8000

program-nonzero : program ≢ 0
program-nonzero e = ground (arith, e)

runtime_game-settles_example :
    (runtime_game none
      (runtime_games (replicate 1 none ++ (some program ∷ none ∷ [])) no_answers)).1
    ≡ game_of_program program
runtime_game-settles_example = runtime_game-settles 1 program (none ∷ []) none program-nonzero
