-- ===== src/HidInput/Edges.antt =====
-- Presses and releases alternate.
use xenomods.Base.{
  ℕ, ◌+◌, Bool, true, false, not, ◌&&◌, List, [], ◌∷◌, if◌then◌else◌, ◌≡◌, refl, ap, arith, if-elim,
}
use xenomods.HidInput.{
  HidInput, Report, PadState, poll, bit_mask, bit_mask_strict, low_buttons, input_held, input_up,
  input_down, input_held_strict, input_up_strict, input_down_strict,
}

-- 1 when it holds.
abbrev pub one_if : Bool → ℕ
one_if b = if b then 1 else 0

-- The polls of a run after which a test holds.
module _ (to_axis : ℕ → ℕ) (is_first_player : Bool) where
  unfoldable pub polls : List Report → HidInput → HidInput
  polls [] p = p
  polls (r ∷ rs) p = polls rs (poll to_axis is_first_player r p)

  unfoldable pub count_polls : (HidInput → Bool) → List Report → HidInput → ℕ
  count_polls test [] p = 0
  count_polls test (r ∷ rs) p =
      let next = poll to_axis is_first_player r p in one_if (test next) + count_polls test rs next

  poll-prev :
      (r : Report) (p : HidInput) → (poll to_axis is_first_player r p).state_prev ≡ p.state_cur
  unfolding poll
  poll-prev r p = if-elim (λ (q : HidInput). q.state_prev ≡ p.state_cur) _ refl refl

  -- A test that holds now and did not before, and the other way round.
  abbrev begins : (PadState → Bool) → HidInput → Bool
  begins held p = held p.state_cur && not (held p.state_prev)

  abbrev ends : (PadState → Bool) → HidInput → Bool
  ends held p = not (held p.state_cur) && held p.state_prev

  begins-ends :
      (held : PadState → Bool) (rs : List Report) (p : HidInput)
      → count_polls (begins held) rs p + one_if (held p.state_cur)
        ≡ count_polls (ends held) rs p + one_if (held (polls rs p).state_cur)
  unfolding count_polls polls
  begins-ends held [] p = refl
  begins-ends held (r ∷ rs) p =
      let next = poll to_axis is_first_player r p in
      let before : one_if (held next.state_prev) ≡ one_if (held p.state_cur) =
        ap (λ (t : PadState). one_if (held t)) (poll-prev r p) in
      let edge = edges (held next.state_cur) (held next.state_prev) in
      let rest = begins-ends held rs next in omega (arith, before, edge, rest)
    where
      edges :
          (now before : Bool)
          → one_if (now && not before) + one_if before ≡ one_if (not now && before) + one_if now
      edges true true = refl
      edges true false = refl
      edges false true = refl
      edges false false = refl

  -- In any run of polls, from any state and whether the pad is connected or not, the presses of a
  -- combo and its being held at the start are as many as its releases and its being held at the
  -- end: each press is followed by a release before the next press. So it is with the strict tests.
  pub downs-ups :
      (combo : ℕ) (rs : List Report) (p : HidInput)
      → (count_polls (input_down combo) rs p + one_if (input_held combo p)
          ≡ count_polls (input_up combo) rs p + one_if (input_held combo (polls rs p)))
        × (count_polls (input_down_strict combo) rs p + one_if (input_held_strict combo p)
            ≡ count_polls (input_up_strict combo) rs p
              + one_if (input_held_strict combo (polls rs p)))
  unfolding input_down input_up input_held input_down_strict input_up_strict input_held_strict
  downs-ups combo rs p = (
    begins-ends (λ s. bit_mask s.buttons combo) rs p,
    begins-ends (λ s. bit_mask_strict (low_buttons s) combo) rs p,
  )
