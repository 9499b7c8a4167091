-- ===== src/Fsm/Rows.antt =====
-- A property of every row of the transition table (c/src/raft.c).
use mathlib.Core.List.{Memᴰ}
use raft_rx.Prelude.{List, [], ◌∷◌}
use raft_rx.Fsm.{Transition}

module _ {S : Type 0} where
  infixr 2 ◌∷∷◌
  pub data All (P : Transition S → Type 0) : List (Transition S) → Type 0 where
    done : All P []
    ◌∷∷◌ : {t : Transition S} {ts : List (Transition S)} → P t → All P ts → All P (t ∷ ts)

  pub All-mem :
      (P : Transition S → Type 0) {t : Transition S} {ts : List (Transition S)}
      → All P ts
      → Memᴰ t ts
      → P t
  All-mem P done m = elim m [ ]
  All-mem P (p ∷∷ ps) (Memᴰ.head e) = rw e p
  All-mem P (p ∷∷ ps) (Memᴰ.tail m) = All-mem P ps m
