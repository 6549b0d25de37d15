-- ===== src/Version/Runtime.antt =====
-- RuntimeProgramID and RuntimeGame, each with a static that keeps the answer. What svcGetInfo returns
-- is an argument, none when it fails.
use xenomods.Base.{
  ℕ, zero, suc, true, ◌||◌, ◌==◌, ◌!=◌, if◌then◌else◌, Option, none, some, ◌≡◌, ◌≢◌, refl, ap, ◌∙◌,
  arith, ◌⊎◌, inl, inr, replicate, ◌++◌, List, [], ◌∷◌, if-cases, if_true,
}
use xenomods.Version.{GameType, invalid, bf2, ira, bfsw, bf3, game_value}

-- The statics of both.
pub record RuntimeStatics : Type 0 where
  pub program_id : ℕ
  pub actual_game : GameType

abbrev pub no_answers : RuntimeStatics
no_answers = record { program_id = 0; actual_game = invalid }

-- RuntimeProgramID
unfoldable pub runtime_program_id : Option ℕ → RuntimeStatics → RuntimeStatics × ℕ
runtime_program_id info s =
    let asked : ℕ = elim info [ none ↦ 0 | some id ↦ id ] in
    if s.program_id != 0 then (s, s.program_id) else (record s { program_id = asked }, asked)

-- The switch of RuntimeGame.
unfoldable pub game_of_program : ℕ → GameType
game_of_program id =
    if id == 0x0100_E950_0403_8000 || id == 0x0100_F340_0332_C000
    then bf2
    else if id == 0x0100_C9F0_09F7_A000
    then ira
    else if id == 0x0100_FF50_0E34_A000
    then bfsw
    else if id == 0x0100_74F0_1326_2000
    then bf3
    else invalid

-- RuntimeGame
unfoldable pub runtime_game : Option ℕ → RuntimeStatics → RuntimeStatics × GameType
runtime_game info s =
    let asked = runtime_program_id info s in
    let game = game_of_program asked.1 in
    if game_value s.actual_game != 0
    then (s, s.actual_game)
    else (record asked.0 { actual_game = game }, game)

-- Calls of it, with what svcGetInfo would answer at each.
unfoldable pub runtime_games : List (Option ℕ) → RuntimeStatics → RuntimeStatics
runtime_games [] s = s
runtime_games (info ∷ infos) s = runtime_games infos (runtime_game info s).0

-- The program is known, and so is its game once it has been asked for.
record Known (id : ℕ) (s : RuntimeStatics) : Type 0 where
  same_program : s.program_id ≡ id
  same_game : (s.actual_game ≡ invalid) ⊎ (s.actual_game ≡ game_of_program id)

-- An answer, with the statics after it.
abbrev Answers : ℕ → RuntimeStatics × GameType → Type 0
Answers id r = Known id r.0 × (r.1 ≡ game_of_program id)

asks-program :
    (id : ℕ) (info : Option ℕ) (s : RuntimeStatics)
    → id ≢ 0
    → s.program_id ≡ id
    → runtime_program_id info s ≡ (s, id)
unfolding runtime_program_id
asks-program id info s nonzero e = if_true _ (known s.program_id e) ∙ ap (λ n. (s, n)) e
  where
    known : (p : ℕ) → p ≡ id → (p != 0) ≡ true
    known p same = ground (arith, nonzero, same)

game-Answers :
    (id : ℕ) (info : Option ℕ) (s : RuntimeStatics)
    → id ≢ 0
    → Known id s
    → Answers id (runtime_game info s)
unfolding runtime_game
game-Answers id info s nonzero k =
    let asked = asks-program id info s nonzero k.same_program in
    if-cases (Answers id) (game_value s.actual_game != 0)
      (λ valid. elim k.same_game [
        | inl none_yet ↦ absurd (never none_yet valid)
        | inr same ↦ (k, same)
      ])
      (λ _. rw (asked) (record { same_program = k.same_program; same_game = inr refl }, refl))
  where
    never : s.actual_game ≡ invalid → (game_value s.actual_game != 0) ≡ true → ⊥
    never none_yet valid =
        let e : game_value s.actual_game ≡ 0 = ap game_value none_yet in ground (arith, e, valid)

games-Known :
    (id : ℕ) (infos : List (Option ℕ)) (s : RuntimeStatics)
    → id ≢ 0
    → Known id s
    → Known id (runtime_games infos s)
unfolding runtime_games
games-Known id [] s nonzero k = k
games-Known id (info ∷ infos) s nonzero k =
    games-Known id infos (runtime_game info s).0 nonzero (game-Answers id info s nonzero k).0

-- The first call that finds a program settles its game, also after calls that found none.
first-Known : (id : ℕ) → id ≢ 0 → Known id (runtime_game (some id) no_answers).0
unfolding runtime_game runtime_program_id
first-Known id nonzero = record { same_program = refl; same_game = inr refl }

failed-games :
    (fails : ℕ) (infos : List (Option ℕ))
    → runtime_games (replicate fails none ++ infos) no_answers ≡ runtime_games infos no_answers
unfolding runtime_games runtime_game runtime_program_id game_of_program
failed-games zero infos = refl
failed-games (suc fails) infos = failed-games fails infos

-- Once svcGetInfo has found a program, whatever number of calls failed before, every later call of
-- RuntimeGame answers with the game of that program, whatever svcGetInfo would return then.
pub runtime_game-settles :
    (fails id : ℕ) (later : List (Option ℕ)) (info : Option ℕ)
    → id ≢ 0
    → (runtime_game info (runtime_games (replicate fails none ++ (some id ∷ later)) no_answers)).1
      ≡ game_of_program id
unfolding runtime_games
runtime_game-settles fails id later info nonzero = rw (failed-games fails (some id ∷ later)) (
    (game-Answers id info (runtime_games (some id ∷ later) no_answers) nonzero (
      games-Known id later (runtime_game (some id) no_answers).0 nonzero
        (first-Known id nonzero))).1)
