-- ===== src/Cli/Pending.antt =====
-- The loop over the pending join requests of a command line (`handle_pending_joins` of
-- c/examples/counter/src/counter_cli.c, and the loop of `cli_dump_outputs` of
-- c/examples/demo_app/src/cli_fsm.c). The body of the loop is a parameter: it works on the rest of the
-- state, and either gives the request up or says what is left of it.
use raft_rx.Prelude.{
  ℕ, zero, suc, ◌+◌, ◌-◌, ◌≤◌, ◌≡◌, true, false, Option, none, some, List, [], ◌∷◌, ltb, length,
  take, set, get_or, arith, refl, length-take, length-set, ◌∙◌, sym, Bool-cases, Option-cases, inl,
  inr,
}

-- pending[i] = pending[--count]
unfoldable pub remove_at : {A : Type 0} → A → List A → ℕ → List A
remove_at d xs i = take (length xs - 1) (set xs i (get_or xs (length xs - 1) d))

module _ {C J : Type 0} (d : J) (step : C → J → C × Option J) where
  unfoldable pub run_from : ℕ → ℕ → C → List J → C × List J
  run_from zero i c pending = (c, pending)
  run_from (suc fuel) i c pending = elim (ltb i (length pending)) [
    | false ↦ (c, pending)
    | true ↦
        let (c1, left) = step c (get_or pending i d) in
        (elim left [
          | none ↦ run_from fuel i c1 (remove_at d pending i)
          | some j ↦ run_from fuel (i + 1) c1 (set pending i j)
        ])
  ]

  -- Each round brings the position and the end one closer: as many rounds as requests are enough.
  unfoldable pub run_pending : C → List J → C × List J
  run_pending c pending = run_from (length pending) 0 c pending

  length-remove_at : (xs : List J) (i : ℕ) → length (remove_at d xs i) ≡ length xs - 1
  unfolding remove_at
  length-remove_at xs i = ground (
    arith,
    length-take (length xs - 1) (set xs i (get_or xs (length xs - 1) d)),
    length-set xs i (get_or xs (length xs - 1) d),
  )

  run_from-done :
      (fuel i : ℕ) (c : C) (pending : List J)
      → ltb i (length pending) ≡ false
      → run_from fuel i c pending ≡ (c, pending)
  unfolding run_from
  run_from-done zero i c pending h = refl
  run_from-done (suc fuel) i c pending h = rw (h, run_from) refl

  run_from-gone :
      (fuel i : ℕ) (c : C) (pending : List J)
      → ltb i (length pending) ≡ true
      → (step c (get_or pending i d)).1 ≡ none
      → run_from (suc fuel) i c pending
        ≡ run_from fuel i (step c (get_or pending i d)).0 (remove_at d pending i)
  unfolding run_from
  run_from-gone fuel i c pending more gone = rw (more, run_from, gone) refl

  -- Whatever the body of the loop over the pending join requests does with the rest of the state,
  -- as many rounds as there are requests from the position on are enough: with any larger number of
  -- rounds the result is the same.
  pub run_from-enough :
      (fuel most i : ℕ) (c : C) (pending : List J)
      → length pending ≤ i + fuel
      → fuel ≤ most
      → run_from most i c pending ≡ run_from fuel i c pending
  unfolding run_from
  run_from-enough zero most i c pending h le = run_from-done most i c pending (ground arith)
  run_from-enough (suc fuel) zero i c pending h le = absurd (omega arith)
  run_from-enough (suc fuel) (suc most) i c pending h le =
      elim (Bool-cases (ltb i (length pending))) [
        | inr done ↦
            run_from-done (suc most) i c pending done
            ∙ sym (run_from-done (suc fuel) i c pending done)
        | inl more ↦
            let (c1, left) = step c (get_or pending i d) in
            elim (Option-cases left) [
              | inl gone ↦
                  run_from-gone most i c pending more gone
                  ∙ run_from-enough fuel most i c1 (remove_at d pending i)
                      (omega (arith, length-remove_at pending i)) (omega arith)
                  ∙ sym (run_from-gone fuel i c pending more gone)
              | inr (j, kept) ↦
                  rw (more, run_from, kept)
                    (run_from-enough fuel most (i + 1) c1 (set pending i j)
                      (omega (arith, length-set pending i j)) (omega arith))
            ]
      ]

  -- The loop over two requests that are both given up.
  pub run_pending-two :
      (c : C) (first second : J)
      → (step c first).1 ≡ none
      → (step (step c first).0 second).1 ≡ none
      → run_pending c (first ∷ second ∷ []) ≡ ((step (step c first).0 second).0, [])
  unfolding run_pending remove_at run_from
  run_pending-two c first second gone1 gone2 =
      run_from-gone 1 0 c (first ∷ second ∷ []) refl gone1
      ∙ run_from-gone 0 0 (step c first).0 (second ∷ []) refl gone2
