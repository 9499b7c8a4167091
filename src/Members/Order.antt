-- ===== src/Members/Order.antt =====
-- The order of member names by `strcmp`, and lists in that order.
use raft_rx.Prelude.{
  ◌≡◌, true, false, List, [], ◌∷◌, Text, greater, arith, refl, ap, sym, ◌∙◌, is_empty,
}
use raft_rx.Members.{member_list_contains}

greater-asym : (a b : Text) → greater a b ≡ true → greater b a ≡ false
unfolding greater
greater-asym [] b h = ground arith
greater-asym (x ∷ a) [] h = refl
greater-asym (x ∷ a) (y ∷ b) h = ground (arith, greater-asym a b)

pub greater_trans : (a b c : Text) → greater a b ≡ true → greater b c ≡ true → greater a c ≡ true
unfolding greater
greater_trans [] b c h k = ground arith
greater_trans (x ∷ a) [] c h k = ground arith
greater_trans (x ∷ a) (y ∷ b) [] h k = refl
greater_trans (x ∷ a) (y ∷ b) (z ∷ c) h k = ground (arith, greater_trans a b c)

greater_irrefl : (a : Text) → greater a a ≡ false
unfolding greater
greater_irrefl [] = refl
greater_irrefl (x ∷ a) = ground (arith, greater_irrefl a)

-- Names that are not greater than one another are equal.
pub greater-total : (a b : Text) → greater a b ≡ false → greater b a ≡ false → a ≡ b
unfolding greater
greater-total [] [] h k = refl
greater-total [] (y ∷ b) h k = ground arith
greater-total (x ∷ a) [] h k = ground arith
greater-total (x ∷ a) (y ∷ b) h k = ground (arith, greater-total a b)

-- `m` is below every name of the list.
abbrev pub IsBelow : Text → List Text → Type 0
IsBelow m [] = Unit
IsBelow m (x ∷ xs) = (greater x m ≡ true) × IsBelow m xs

-- Strictly ascending, so without repetition, and with no empty name.
abbrev pub IsAscending : List Text → Type 0
IsAscending [] = Unit
IsAscending (x ∷ xs) = (is_empty x ≡ false) × IsBelow x xs × IsAscending xs

IsBelow-trans : (m x : Text) (xs : List Text) → greater x m ≡ true → IsBelow x xs → IsBelow m xs
IsBelow-trans m x [] h b = tt
IsBelow-trans m x (y ∷ ys) h b = (greater_trans y x m b.0 h, IsBelow-trans m x ys h b.1)

contains-IsBelow :
    (m x : Text) (xs : List Text)
    → IsBelow m xs
    → member_list_contains xs x ≡ true
    → greater x m ≡ true
unfolding member_list_contains
contains-IsBelow m x [] b h = ground arith
contains-IsBelow m x (y ∷ ys) b h = ground (arith, contains-IsBelow m x ys)

abbrev pub SameMembers : List Text → List Text → Type 0
SameMembers xs ys = (x : Text) → member_list_contains xs x ≡ member_list_contains ys x

heads_equal :
    (x y : Text) (xs ys : List Text)
    → IsBelow x xs
    → IsBelow y ys
    → member_list_contains (x ∷ xs) y ≡ true
    → member_list_contains (y ∷ ys) x ≡ true
    → x ≡ y
unfolding member_list_contains
heads_equal x y xs ys a b h k =
    ground (arith, contains-IsBelow x y xs a, contains-IsBelow y x ys b, greater-asym x y)

tails_same :
    (x : Text) (xs ys : List Text)
    → IsBelow x xs
    → IsBelow x ys
    → SameMembers (x ∷ xs) (x ∷ ys)
    → SameMembers xs ys
unfolding member_list_contains
tails_same x xs ys a b h z =
    ground (arith, h z, contains-IsBelow x z xs a, contains-IsBelow x z ys b, greater_irrefl x)

-- An ascending list is determined by its members.
pub IsAscending-unique :
    (xs ys : List Text) → IsAscending xs → IsAscending ys → SameMembers xs ys → xs ≡ ys
unfolding member_list_contains
IsAscending-unique [] [] a b h = refl
IsAscending-unique [] (y ∷ ys) a b h = ground (arith, h y)
IsAscending-unique (x ∷ xs) [] a b h = ground (arith, h x)
IsAscending-unique (x ∷ xs) (y ∷ ys) a b h =
    let e : x ≡ y = heads_equal x y xs ys a.1 b.1 (ground (arith, h y)) (ground (arith, h x)) in
    let f : SameMembers (x ∷ xs) (x ∷ ys) =
      λ z. h z ∙ ap (λ m. member_list_contains (m ∷ ys) z) (sym e) in
    ground (arith, IsAscending-unique xs ys a.2 b.2 (tails_same x xs ys a.1 (rw e b.1) f))
