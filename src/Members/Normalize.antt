-- ===== src/Members/Normalize.antt =====
-- The order and the length of what `normalize_members` gives (c/src/raft.c).
use raft_rx.Members.Names.{AllIds, copy_id, contains-sink, contains-normalize_members}
use mathlib.Core.List.{reverse, reverse-cons}
use raft_rx.Prelude.{
  ℕ, ◌+◌, ◌≤◌, ◌≡◌, true, false, ◌||◌, List, [], ◌∷◌, ◌++◌, Text, greater, same, is_empty, arith,
  refl, length, length-append, ap, sym, ◌∙◌, Bool-cases, inl, inr,
}
use raft_rx.Types.{max_id, copy}
use raft_rx.Members.{member_list_contains, collect, sink, sort_from, normalize_members}
use raft_rx.Members.Order.{
  IsBelow, IsAscending, SameMembers, IsAscending-unique, greater-total, greater_trans,
}

-- The names of the second list are not empty, and occur neither twice nor in the first.
abbrev pub AreFresh : List Text → List Text → Type 0
AreFresh ps [] = Unit
AreFresh ps (m ∷ ms) =
    (is_empty m ≡ false) × (member_list_contains ps m ≡ false) × AreFresh (m ∷ ps) ms

-- From its end to its start, ascending.
abbrev IsAbove : Text → List Text → Type 0
IsAbove m [] = Unit
IsAbove m (x ∷ xs) = (greater m x ≡ true) × IsAbove m xs

abbrev IsDescending : List Text → Type 0
IsDescending [] = Unit
IsDescending (x ∷ xs) = (is_empty x ≡ false) × IsAbove x xs × IsDescending xs

IsAbove-trans : (m x : Text) (xs : List Text) → greater m x ≡ true → IsAbove x xs → IsAbove m xs
IsAbove-trans m x [] h b = tt
IsAbove-trans m x (y ∷ ys) h b = (greater_trans m x y h b.0, IsAbove-trans m x ys h b.1)

IsAbove-sink :
    (m p : Text) (ps : List Text) → greater p m ≡ true → IsAbove p ps → IsAbove p (sink m ps)
unfolding sink
IsAbove-sink m p [] h a = (h, tt)
IsAbove-sink m p (q ∷ ps) h a = ground (arith, IsAbove-sink m p ps h a.1)

sink-IsDescending :
    (m : Text) (ps : List Text)
    → is_empty m ≡ false
    → member_list_contains ps m ≡ false
    → IsDescending ps
    → IsDescending (sink m ps)
unfolding sink member_list_contains
sink-IsDescending m [] e c d = (e, tt, tt)
sink-IsDescending m (p ∷ ps) e c d = elim (Bool-cases (greater p m)) [
  | inl g ↦ rw g (d.0, IsAbove-sink m p ps g d.1, sink-IsDescending m ps e (ground arith) d.2)
  | inr g ↦
      let k : greater m p ≡ true = ground (arith, greater-total p m) in
      rw g (e, (k, IsAbove-trans m p ps k d.1), d)
]

pub AreFresh-same : (ps qs ms : List Text) → SameMembers ps qs → AreFresh ps ms → AreFresh qs ms
unfolding member_list_contains
AreFresh-same ps qs [] h f = tt
AreFresh-same ps qs (m ∷ ms) h f = (
  f.0,
  sym (h m) ∙ f.1,
  AreFresh-same (m ∷ ps) (m ∷ qs) ms (λ x. ap (λ b. same m x || b) (h x)) f.2,
)

AreFresh-snoc :
    (ps ms : List Text) (m : Text)
    → is_empty m ≡ false
    → member_list_contains ms m ≡ false
    → member_list_contains ps m ≡ false
    → AreFresh ps ms
    → AreFresh ps (ms ++ m ∷ [])
unfolding member_list_contains
AreFresh-snoc ps [] m e c d f = (e, d, tt)
AreFresh-snoc ps (x ∷ ms) m e c d f =
    (f.0, f.1, AreFresh-snoc (x ∷ ps) ms m e (ground arith) (ground arith) f.2)

collect-AreFresh :
    (capacity : ℕ) (ms out : List Text)
    → AllIds ms
    → AreFresh [] out
    → AreFresh [] (collect capacity ms out)
unfolding collect
collect-AreFresh capacity [] out a f = f
collect-AreFresh capacity (m ∷ ms) out a f =
    elim (Bool-cases (is_empty m || member_list_contains out m)) [
      | inl e ↦ rw e (ground (arith, f, collect-AreFresh capacity ms out a.1 f))
      | inr e ↦
          let g : AreFresh [] (out ++ m ∷ []) =
            AreFresh-snoc [] out m (ground arith) (ground arith)
              (unfold member_list_contains in refl) f in
          rw (e, copy_id m a.0)
            (ground (arith, f, collect-AreFresh capacity ms (out ++ m ∷ []) a.1 g))
    ]

IsAbove-snoc :
    (m x : Text) (ps : List Text) → greater m x ≡ true → IsAbove m ps → IsAbove m (ps ++ x ∷ [])
IsAbove-snoc m x [] g h = (g, tt)
IsAbove-snoc m x (p ∷ ps) g h = (h.0, IsAbove-snoc m x ps g h.1)

IsAbove-reverse : (m : Text) (ps : List Text) → IsAbove m ps → IsAbove m (reverse ps)
IsAbove-reverse m [] h = tt
IsAbove-reverse m (p ∷ ps) h =
    rw (reverse-cons p ps) (IsAbove-snoc m p (reverse ps) h.0 (IsAbove-reverse m ps h.1))

IsBelow-snoc :
    (m x : Text) (ps : List Text) → greater x m ≡ true → IsBelow m ps → IsBelow m (ps ++ x ∷ [])
IsBelow-snoc m x [] g h = (g, tt)
IsBelow-snoc m x (p ∷ ps) g h = (h.0, IsBelow-snoc m x ps g h.1)

IsAscending-snoc :
    (ps : List Text) (m : Text)
    → is_empty m ≡ false
    → IsAbove m ps
    → IsAscending ps
    → IsAscending (ps ++ m ∷ [])
IsAscending-snoc [] m e a h = (e, tt, tt)
IsAscending-snoc (p ∷ ps) m e a h =
    (h.0, IsBelow-snoc p m ps a.0 h.1, IsAscending-snoc ps m e a.1 h.2)

reverse-IsAscending : (ps : List Text) → IsDescending ps → IsAscending (reverse ps)
reverse-IsAscending [] h = tt
reverse-IsAscending (p ∷ ps) h =
    rw (reverse-cons p ps)
      (IsAscending-snoc (reverse ps) p h.0 (IsAbove-reverse p ps h.1) (reverse-IsAscending ps h.2))

sort_from-IsAscending :
    (ps ms : List Text) → IsDescending ps → AreFresh ps ms → IsAscending (sort_from ps ms)
unfolding sort_from member_list_contains
sort_from-IsAscending ps [] d f = reverse-IsAscending ps d
sort_from-IsAscending ps (m ∷ ms) d f =
    sort_from-IsAscending (sink m ps) ms (sink-IsDescending m ps f.0 f.1 d)
      (AreFresh-same (m ∷ ps) (sink m ps) ms (λ x. sym (contains-sink m ps x)) f.2)

-- A list of names of fewer than 16 bytes is normalised to one in strict order, without repetition
-- and without an empty name.
normalize_members-IsAscending :
    (ms : List Text) (capacity : ℕ) → AllIds ms → IsAscending (normalize_members ms capacity)
unfolding normalize_members
normalize_members-IsAscending ms capacity a =
    sort_from-IsAscending [] (collect capacity ms []) tt (collect-AreFresh capacity ms [] a tt)

length-sink : (m : Text) (ps : List Text) → length (sink m ps) ≡ length ps + 1
unfolding sink
length-sink m [] = omega arith
length-sink m (p ∷ ps) = ground (arith, length-sink m ps)

length-reverse : (ps : List Text) → length (reverse ps) ≡ length ps
length-reverse [] = refl
length-reverse (p ∷ ps) =
    rw (reverse-cons p ps) (omega (arith, length-append (reverse ps) (p ∷ []), length-reverse ps))

length-sort_from : (ps ms : List Text) → length (sort_from ps ms) ≡ length ps + length ms
unfolding sort_from
length-sort_from ps [] = omega (arith, length-reverse ps)
length-sort_from ps (m ∷ ms) = omega (arith, length-sort_from (sink m ps) ms, length-sink m ps)

length-collect-le :
    (capacity : ℕ) (ms out : List Text)
    → length out ≤ capacity
    → length (collect capacity ms out) ≤ capacity
unfolding collect
length-collect-le capacity [] out h = h
length-collect-le capacity (m ∷ ms) out h = ground (
  arith,
  length-collect-le capacity ms out,
  length-collect-le capacity ms (out ++ copy max_id m ∷ []),
  length-append out (copy max_id m ∷ []),
)

-- A normalised list is not longer than the array that it is written to.
length-normalize_members-le :
    (ms : List Text) (capacity : ℕ) → length (normalize_members ms capacity) ≤ capacity
unfolding normalize_members
length-normalize_members-le ms capacity = omega (
  arith,
  length-sort_from [] (collect capacity ms []),
  length-collect-le capacity ms [] (omega arith),
)

-- Two lists of names of fewer than 16 bytes that have the same members, and for which there is
-- room, are normalised to the same list.
pub normalize_members_unique :
    (ms ns : List Text) (capacity : ℕ)
    → AllIds ms
    → AllIds ns
    → length ms ≤ capacity
    → length ns ≤ capacity
    → SameMembers ms ns
    → normalize_members ms capacity ≡ normalize_members ns capacity
normalize_members_unique ms ns capacity a b h k e =
    IsAscending-unique _ _ (normalize_members-IsAscending ms capacity a)
      (normalize_members-IsAscending ns capacity b)
      (λ x. ground (
        arith,
        contains-normalize_members ms capacity x a h,
        contains-normalize_members ns capacity x b k,
        e x,
      ))
