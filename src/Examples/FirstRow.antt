-- ===== src/Examples/FirstRow.antt =====
-- A runtime that fires the first row of the table whose guard holds: what the model asks of rxnet can
-- be had.
use raft_rx.Prelude.{
  ℕ, ◌≡◌, Bool, true, false, ◌&&◌, Option, none, some, List, [], ◌∷◌, if◌then◌else◌, arith,
  Bool-cases, ◌∙◌, inl, inr, sym, ap,
}
use mathlib.Core.List.{Memᴰ}
use std.Option.{some-injective}
use raft_rx.Types.{Node, Role, follower, candidate, leader}
use raft_rx.Fsm.{Transition, transitions, Runtime}

abbrev pub same_role : Role → Role → Bool
same_role follower follower = true
same_role candidate candidate = true
same_role leader leader = true
same_role _ _ = false

same_role-eq : (r s : Role) → same_role r s ≡ true → r ≡ s
same_role-eq r s h = ground arith

module _ {S : Type 0} where
  abbrev pub is_enabled : Transition S → Node S → ℕ → Bool
  is_enabled t n now = same_role t.from n.state && t.guard n now

  abbrev pub first_of : List (Transition S) → Node S → ℕ → Option (Transition S)
  first_of [] n now = none
  first_of (t ∷ ts) n now = if is_enabled t n now then some t else first_of ts n now

  pub first_of-enabled :
      (ts : List (Transition S)) (n : Node S) (now : ℕ) (t : Transition S)
      → first_of ts n now ≡ some t
      → Memᴰ t ts × (t.from ≡ n.state) × (t.guard n now ≡ true)
  first_of-enabled [] n now t h = cc
  first_of-enabled (u ∷ ts) n now t h = elim (Bool-cases (is_enabled u n now)) [
    | inr off ↦ let (m, a, b) = first_of-enabled ts n now t (ground arith) in (Memᴰ.tail m, a, b)
    | inl on ↦
        let e : u ≡ t = some-injective (ground arith) in
        (
          Memᴰ.head (sym e),
          ap (λ r. r.from) (sym e) ∙ same_role-eq u.from n.state (ground arith),
          ap (λ r. r.guard n now) (sym e) ∙ ground arith,
        )
  ]

  abbrev pub first_row : Runtime S
  first_row = record {
    select = first_of transitions;
    select_enabled = first_of-enabled transitions;
  }
