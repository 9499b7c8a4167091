-- ===== src/Members/Names.antt =====
-- Names as the program stores them, and what the steps of `normalize_members` contain (c/src/raft.c).
use mathlib.Core.List.{reverse, reverse-cons}
use raft_rx.Prelude.{
  take_all, ℕ, ◌+◌, ◌-◌, ◌≤◌, ◌<◌, ◌≡◌, Bool, not, ◌||◌, ◌&&◌, List, [], ◌∷◌, ◌++◌, Text, same,
  is_empty, arith, refl, length, length-append,
}
use raft_rx.Types.{max_id, copy}
use raft_rx.Members.{member_list_contains, collect, sink, sort_from, normalize_members}

-- A name that a char[16] holds.
abbrev pub IsId : Text → Type 0
IsId m = length m < max_id

abbrev pub AllIds : List Text → Type 0
AllIds [] = Unit
AllIds (m ∷ ms) = IsId m × AllIds ms

pub copy_id : (m : Text) → IsId m → copy max_id m ≡ m
unfolding copy
copy_id m h = take_all (max_id - 1) m (omega arith)

pub contains-append :
    (xs ys : List Text) (x : Text)
    → member_list_contains (xs ++ ys) x ≡ (member_list_contains xs x || member_list_contains ys x)
unfolding member_list_contains
contains-append [] ys x = refl
contains-append (y ∷ xs) ys x = ground (arith, contains-append xs ys x)

-- The names that the first loop goes through.
pub nonempty_in : List Text → Text → Bool
nonempty_in ms x = not (is_empty x) && member_list_contains ms x

-- `collect` adds the names of the list that are not empty, as long as they fit.
contains-collect :
    (capacity : ℕ) (ms out : List Text) (x : Text)
    → AllIds ms
    → length out + length ms ≤ capacity
    → member_list_contains (collect capacity ms out) x
      ≡ (member_list_contains out x || not (is_empty x) && member_list_contains ms x)
unfolding collect member_list_contains
contains-collect capacity [] out x a h = ground arith
contains-collect capacity (m ∷ ms) out x a h = ground (
  arith,
  contains-collect capacity ms out x a.1,
  contains-collect capacity ms (out ++ m ∷ []) x a.1,
  contains-append out (m ∷ []) x,
  length-append out (m ∷ []),
  copy_id m a.0,
)

pub contains-sink :
    (m : Text) (ps : List Text) (x : Text)
    → member_list_contains (sink m ps) x ≡ (same m x || member_list_contains ps x)
unfolding member_list_contains sink
contains-sink m [] x = refl
contains-sink m (p ∷ ps) x = ground (arith, contains-sink m ps x)

contains-reverse :
    (ms : List Text) (x : Text) → member_list_contains (reverse ms) x ≡ member_list_contains ms x
unfolding member_list_contains
contains-reverse [] x = refl
contains-reverse (m ∷ ms) x =
    rw (reverse-cons m ms)
      (ground (arith, contains-append (reverse ms) (m ∷ []) x, contains-reverse ms x))

contains-sort_from :
    (ps ms : List Text) (x : Text)
    → member_list_contains (sort_from ps ms) x
      ≡ (member_list_contains ps x || member_list_contains ms x)
unfolding member_list_contains sort_from
contains-sort_from ps [] x = ground (arith, contains-reverse ps x)
contains-sort_from ps (m ∷ ms) x =
    ground (arith, contains-sort_from (sink m ps) ms x, contains-sink m ps x)

-- With room for a whole list of names of fewer than 16 bytes, the normalised list has exactly its
-- members that are not empty.
pub contains-normalize_members :
    (ms : List Text) (capacity : ℕ) (x : Text)
    → AllIds ms
    → length ms ≤ capacity
    → member_list_contains (normalize_members ms capacity) x
      ≡ (not (is_empty x) && member_list_contains ms x)
unfolding normalize_members member_list_contains
contains-normalize_members ms capacity x a h =
    ground
      (arith, contains-sort_from [] (collect capacity ms []) x, contains-collect capacity ms [] x a)
