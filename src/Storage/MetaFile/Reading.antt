-- ===== src/Storage/MetaFile/Reading.antt =====
-- The lines of meta.txt (c/src/raft_storage.c): what reading makes of each kind of line.
use mathlib.Core.List.{append_assoc}
use raft_rx.Prelude.{
  ℕ, ◌^◌, ◌≤◌, ◌<◌, ◌≡◌, ◌≢◌, ◌∙◌, ◌⊎◌, inl, inr, Bool, true, false, List, [], ◌∷◌, ◌++◌, Text,
  codes, is_empty, arith, refl, ap, sym, length, length-append, ◌==◌, if◌then◌else◌, Text-discrete,
  ℕ_discrete,
}
use raft_rx.Types.{max_nodes}
use raft_rx.Decimal.{atoi, print_int, AllDigits-print_int, atoi-print_int, length-print_int}
use raft_rx.Storage.Lines.{Lacks, AllDigits-Lacks_low, Lacks-append, lines_of_line}
use raft_rx.Storage.MetaFile.{
  Meta, number_line, text_line, text_lines, lines_of, read_meta_line, read_meta_lines, read_vote,
  scan_word, word_from, label_case, after, at_most, is_space,
}
use raft_rx.Storage.MetaFile.Words.{IsWord, AllWords, HasNoSpaces, scan_word_line, add_all}

-- A short label without a newline.
unfoldable pub lacks : ℕ → Text → Bool
lacks sep [] = true
lacks sep (c ∷ s) = let rest = lacks sep s in if c == sep then false else rest

lacks_lem : (sep : ℕ) (s : Text) → lacks sep s ≡ true → Lacks sep s
unfolding lacks
lacks_lem sep [] h = tt
lacks_lem sep (c ∷ s) h = (ground arith, lacks_lem sep s (ground arith))

at_most_lem : (limit k : ℕ) → k ≤ limit → at_most limit k ≡ k
unfolding at_most
at_most_lem limit k h = ground arith

unfoldable pub IsLabel : Text → Type 0
unfolding lacks
IsLabel label = (lacks b'\n' label ≡ true) × (length label ≤ 100)

-- One line is read, and then the others.
read_text_line :
    (m : Meta) (label s rest : Text)
    → IsLabel label
    → Lacks b'\n' s
    → length s ≤ 100
    → read_meta_lines m (lines_of 512 (text_line label s ++ rest))
      ≡ read_meta_lines (read_meta_line m (text_line label s)) (lines_of 512 rest)
unfolding text_line IsLabel read_meta_lines
read_text_line m label s rest (l, h) k short =
    let line : text_line label s ≡ (label ++ s) ++ b'\n' ∷ [] =
      sym (append_assoc label s (b'\n' ∷ [])) in
    let first =
      lines_of_line 512 (label ++ s) rest (Lacks-append b'\n' label s (lacks_lem b'\n' label l) k)
        (omega (arith, length-append label s)) in
    let whole : text_line label s ++ rest ≡ (label ++ s) ++ b'\n' ∷ rest =
      ap (λ t. t ++ rest) line ∙ append_assoc (label ++ s) (b'\n' ∷ []) rest in
    ap (λ t. read_meta_lines m (lines_of 512 t)) whole
    ∙ ap (read_meta_lines m) first
    ∙ ap (λ t. read_meta_lines (read_meta_line m t) (lines_of 512 rest)) (sym line)

read_number_line :
    (m : Meta) (label rest : Text) (n : ℕ)
    → IsLabel label
    → n < 10 ^ 10
    → read_meta_lines m (lines_of 512 (number_line label n ++ rest))
      ≡ read_meta_lines (read_meta_line m (number_line label n)) (lines_of 512 rest)
unfolding number_line text_line
read_number_line m label rest n l h =
    read_text_line m label (print_int n) rest l
      (AllDigits-Lacks_low b'\n' (print_int n) (omega arith) (AllDigits-print_int n))
      (omega (arith, length-print_int 9 n h))

-- The field that a line of a number sets has the number.
pub read_number :
    (m : Meta) (label rest : Text) (n : ℕ) (f : ℕ → Meta)
    → IsLabel label
    → n < 10 ^ 10
    → read_meta_line m (number_line label n) ≡ f (atoi (print_int n ++ b'\n' ∷ []))
    → read_meta_lines m (lines_of 512 (number_line label n ++ rest))
      ≡ read_meta_lines (f n) (lines_of 512 rest)
read_number m label rest n f l h e =
    read_number_line m label rest n l h
    ∙ ap (λ m'. read_meta_lines m' (lines_of 512 rest))
        (e ∙ ap f (atoi-print_int n (b'\n' ∷ []) refl))

HasNoSpaces-Lacks : (s : Text) → HasNoSpaces s → Lacks b'\n' s
unfolding is_space
HasNoSpaces-Lacks [] w = tt
HasNoSpaces-Lacks (c ∷ s) (x, w) = (ground arith, HasNoSpaces-Lacks s w)

pub read_old_count :
    (m : Meta) (n : ℕ) (rest : Text)
    → n ≤ max_nodes
    → read_meta_lines m (lines_of 512 (number_line (codes "old_count ") n ++ rest))
      ≡ read_meta_lines (record m { old_count = n }) (lines_of 512 rest)
unfolding number_line read_meta_line label_case after IsLabel lacks
read_old_count m n rest h =
    read_number m (codes "old_count ") rest n (λ x. record m { old_count = at_most max_nodes x })
      (refl, omega arith) (omega arith) refl
    ∙ ap (λ x. read_meta_lines (record m { old_count = x }) (lines_of 512 rest))
        (at_most_lem max_nodes n h)

pub read_new_count :
    (m : Meta) (n : ℕ) (rest : Text)
    → n ≤ max_nodes
    → read_meta_lines m (lines_of 512 (number_line (codes "new_count ") n ++ rest))
      ≡ read_meta_lines (record m { new_count = n }) (lines_of 512 rest)
unfolding number_line read_meta_line label_case after IsLabel lacks
read_new_count m n rest h =
    read_number m (codes "new_count ") rest n (λ x. record m { new_count = at_most max_nodes x })
      (refl, omega arith) (omega arith) refl
    ∙ ap (λ x. read_meta_lines (record m { new_count = x }) (lines_of 512 rest))
        (at_most_lem max_nodes n h)

read_vote_word : (old s : Text) → IsWord s → s ≢ codes "-" → read_vote old (s ++ b'\n' ∷ []) ≡ s
unfolding read_vote
read_vote_word old s w ne = ground (arith, scan_word_line old s w)

pub read_vote_line :
    (m : Meta) (vote rest : Text)
    → (vote ≡ []) ⊎ (IsWord vote × (vote ≢ codes "-"))
    → read_meta_lines m (
        lines_of 512
          (text_line (codes "voted_for ") (if is_empty vote then codes "-" else vote) ++ rest))
      ≡ read_meta_lines (record m { voted_for = vote }) (lines_of 512 rest)
unfolding text_line read_meta_line label_case after IsLabel lacks read_vote scan_word word_from
    is_space Text-discrete ℕ_discrete
read_vote_line m [] rest h =
    read_text_line m (codes "voted_for ") (codes "-") rest (refl, omega arith) (omega arith, tt)
      (omega arith)
read_vote_line m (c ∷ s) rest (inl e) = cc
read_vote_line m (c ∷ s) rest (inr (w, ne)) =
    read_text_line m (codes "voted_for ") (c ∷ s) rest (refl, omega arith)
      (HasNoSpaces-Lacks (c ∷ s) w.2) (omega (arith, w.0))
    ∙ ap (λ v. read_meta_lines (record m { voted_for = v }) (lines_of 512 rest))
        (read_vote_word m.voted_for (c ∷ s) w ne)

pub read_old_members :
    (m : Meta) (ms : List Text) (rest : Text)
    → AllWords ms
    → read_meta_lines m (lines_of 512 (text_lines (codes "old_member ") ms ++ rest))
      ≡ read_meta_lines
          (record m { old_slots = add_all m.old_count m.old_slots ms })
          (lines_of 512 rest)
unfolding text_lines add_all text_line read_meta_line label_case after IsLabel lacks
read_old_members m [] rest w = refl
read_old_members m (s ∷ ss) rest (x, w) =
    let one = text_line (codes "old_member ") s in
    let others = text_lines (codes "old_member ") ss in
    ap (λ t. read_meta_lines m (lines_of 512 t)) (append_assoc one others rest)
    ∙ read_text_line m (codes "old_member ") s (others ++ rest) (refl, omega arith)
        (HasNoSpaces-Lacks s x.2) (omega (arith, x.0))
    ∙ read_old_members (read_meta_line m one) ss rest w

pub read_new_members :
    (m : Meta) (ms : List Text) (rest : Text)
    → AllWords ms
    → read_meta_lines m (lines_of 512 (text_lines (codes "new_member ") ms ++ rest))
      ≡ read_meta_lines
          (record m { new_slots = add_all m.new_count m.new_slots ms })
          (lines_of 512 rest)
unfolding text_lines add_all text_line read_meta_line label_case after IsLabel lacks
read_new_members m [] rest w = refl
read_new_members m (s ∷ ss) rest (x, w) =
    let one = text_line (codes "new_member ") s in
    let others = text_lines (codes "new_member ") ss in
    ap (λ t. read_meta_lines m (lines_of 512 t)) (append_assoc one others rest)
    ∙ read_text_line m (codes "new_member ") s (others ++ rest) (refl, omega arith)
        (HasNoSpaces-Lacks s x.2) (omega (arith, x.0))
    ∙ read_new_members (read_meta_line m one) ss rest w
