-- ===== src/Mqtt/Slots.antt =====
-- The slots of the queue of joins (c/src/raft_mqtt_transport.c, `mqtt_recv`; c/src/raft_mqtt_join.c).
use raft_rx.Prelude.{
  ℕ, zero, suc, ◌+◌, ◌-◌, ◌≤◌, ◌<◌, ◌≡◌, ◌≢◌, List, [], ◌∷◌, ◌++◌, Text, if◌then◌else◌, ◌==◌,
  length, drop, set, get_or, replicate, arith, refl, ap, ◌∙◌, get_or-drop, length-append,
  length-drop,
}
use raft_rx.Types.{max_id, copy}

-- A slot that is all NUL.
abbrev pub empty_slot : List ℕ
empty_slot = replicate max_id 0

-- memcpy over the first bytes, and a NUL in the last.
unfoldable pub write_slot : List ℕ → List ℕ → List ℕ
write_slot slot payload = set (payload ++ drop (length payload) slot) (max_id - 1) 0

unfoldable pub before_nul : List ℕ → Text
before_nul [] = []
before_nul (c ∷ s) = let rest = before_nul s in if c == 0 then [] else c ∷ rest

-- strncpy of a slot to a char[16] that is all NUL.
unfoldable pub name_of : List ℕ → Text
name_of slot = copy max_id (before_nul slot)

abbrev pub HasNoNul : Text → Type 0
HasNoNul [] = Unit
HasNoNul (c ∷ s) = (c ≢ 0) × HasNoNul s

set-get_or : (xs : List ℕ) (i d v : ℕ) → get_or xs i d ≡ v → i < length xs → set xs i v ≡ xs
set-get_or [] i d v h l = absurd (omega arith)
set-get_or (x ∷ xs) zero d v h l = ap (λ y. y ∷ xs) (ground (arith, h))
set-get_or (x ∷ xs) (suc i) d v h l = ap (λ ys. x ∷ ys) (set-get_or xs i d v h (omega arith))

get_or-append :
    (xs ys : List ℕ) (i d : ℕ) → length xs ≤ i → get_or (xs ++ ys) i d ≡ get_or ys (i - length xs) d
get_or-append [] ys i d h = ground arith
get_or-append (x ∷ xs) ys zero d h = absurd (omega arith)
get_or-append (x ∷ xs) ys (suc i) d h = ground (arith, get_or-append xs ys i d (omega arith))

before_nul-append : (s rest : Text) → HasNoNul s → before_nul (s ++ rest) ≡ s ++ before_nul rest
unfolding before_nul
before_nul-append [] rest n = refl
before_nul-append (c ∷ s) rest n = ground (arith, n.0, before_nul-append s rest n.1)

-- A slot that ends in NUL: a name written to it is read back with what stood behind it.
pub before_nul-write_slot :
    (slot : List ℕ) (name : Text)
    → length slot ≡ max_id
    → get_or slot (max_id - 1) 0 ≡ 0
    → HasNoNul name
    → length name < max_id
    → before_nul (write_slot slot name) ≡ name ++ before_nul (drop (length name) slot)
unfolding write_slot
before_nul-write_slot slot name size end n short =
    let count = length name in
    let bytes = name ++ drop count slot in
    let at_end : count + (max_id - 1 - count) ≡ max_id - 1 = omega (arith, short) in
    let last : get_or bytes (max_id - 1) 0 ≡ 0 =
      get_or-append name (drop count slot) (max_id - 1) 0 (omega (arith, short))
      ∙ get_or-drop slot count (max_id - 1 - count) 0
      ∙ ap (λ i. get_or slot i 0) at_end
      ∙ end in
    ap before_nul (
      set-get_or bytes (max_id - 1) 0 0 last
        (omega (arith, length-append name (drop count slot), length-drop count slot, size, short)))
    ∙ before_nul-append name (drop count slot) n
