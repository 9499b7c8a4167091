-- ===== src/Storage/MetaFile/Words.antt =====
-- The names in meta.txt (c/src/raft_storage.c): what "%15s" reads of a line, and the slots that the
-- lines of members fill.
use mathlib.Core.List.{append_assoc, append-nil}
use raft_rx.Prelude.{
  ℕ, zero, suc, ◌+◌, ◌-◌, ◌≤◌, ◌<◌, ◌≡◌, ◌∙◌, false, List, [], ◌∷◌, ◌++◌, Text, is_empty, arith,
  refl, ap, sym, length, length-append, set, get_or, replicate,
}
use raft_rx.Types.{max_nodes, max_id}
use raft_rx.Storage.MetaFile.{is_space, word_from, scan_word, first_free, add_member}

abbrev pub HasNoSpaces : Text → Type 0
HasNoSpaces [] = Unit
HasNoSpaces (c ∷ s) = (is_space c ≡ false) × HasNoSpaces s

-- A name that "%15s" reads whole.
abbrev pub IsWord : Text → Type 0
IsWord s = (length s < max_id) × (is_empty s ≡ false) × HasNoSpaces s

abbrev pub AllWords : List Text → Type 0
AllWords [] = Unit
AllWords (s ∷ ss) = IsWord s × AllWords ss

word_from_line :
    (left : ℕ) (s : Text) → length s ≤ left → HasNoSpaces s → word_from left (s ++ b'\n' ∷ []) ≡ s
unfolding word_from is_space
word_from_line zero [] h w = refl
word_from_line zero (c ∷ s) h w = absurd (omega arith)
word_from_line (suc left) [] h w = refl
word_from_line (suc left) (c ∷ s) h (x, w) = ground (arith, word_from_line left s (omega arith) w)

pub scan_word_line : (dst s : Text) → IsWord s → scan_word dst (s ++ b'\n' ∷ []) ≡ s
unfolding scan_word
scan_word_line dst [] (h, ne, w) = cc
scan_word_line dst (c ∷ s) (h, ne, w) =
    rw (w.0, scan_word) (word_from_line 15 (c ∷ s) (omega arith) w)

AllFull : List Text → Type 0
AllFull [] = Unit
AllFull (s ∷ ss) = (is_empty s ≡ false) × AllFull ss

first_free_filled :
    (idx left k : ℕ) (done : List Text)
    → length done < left
    → AllFull done
    → first_free idx left (done ++ replicate (suc k) []) ≡ idx + length done
unfolding first_free AllFull
first_free_filled idx zero k done h f = absurd (omega arith)
first_free_filled idx (suc left) k [] h f = omega arith
first_free_filled idx (suc left) k (s ∷ done) h (x, f) =
    ground (arith, first_free_filled (idx + 1) left k done (omega arith) f)

set-append :
    (done rest : List Text) (old new : Text)
    → set (done ++ old ∷ rest) (length done) new ≡ done ++ new ∷ rest
set-append [] rest old new = refl
set-append (s ∷ done) rest old new = ap (λ ss. s ∷ ss) (set-append done rest old new)

add_member_next :
    (count k : ℕ) (done : List Text) (s : Text)
    → length done < count
    → length done < max_nodes
    → AllFull done
    → IsWord s
    → add_member count (done ++ replicate (suc k) []) (s ++ b'\n' ∷ []) ≡ done ++ s ∷ replicate k []
unfolding add_member
add_member_next count k done s lt room f w =
    let slots = done ++ replicate (suc k) [] in
    ground (
      arith,
      first_free_filled 0 count k done lt f,
      scan_word_line (get_or slots (length done) []) s w,
      set-append done (replicate k []) [] s,
    )

-- The slots after the lines of the members.
unfoldable pub add_all : ℕ → List Text → List Text → List Text
add_all count slots [] = slots
add_all count slots (s ∷ ss) = add_all count (add_member count slots (s ++ b'\n' ∷ [])) ss

AllFull-snoc :
    (done : List Text) (s : Text) → AllFull done → is_empty s ≡ false → AllFull (done ++ s ∷ [])
unfolding AllFull
AllFull-snoc [] s f x = (x, tt)
AllFull-snoc (d ∷ done) s (y, f) x = (y, AllFull-snoc done s f x)

add_all_filled :
    (count k : ℕ) (done ms : List Text)
    → length done + length ms ≤ count
    → length done + length ms + k ≡ max_nodes
    → AllFull done
    → AllWords ms
    → add_all count (done ++ replicate (length ms + k) []) ms ≡ (done ++ ms) ++ replicate k []
unfolding add_all
add_all_filled count k done [] le total f w = ground (arith, append-nil done)
add_all_filled count k done (m ∷ ms) le total f (x, w) =
    let here = add_member_next count (length ms + k) done m (omega arith) (omega arith) f x in
    let rest =
      add_all_filled count k (done ++ m ∷ []) ms (omega (arith, length-append done (m ∷ [])))
        (omega (arith, length-append done (m ∷ []))) (AllFull-snoc done m f x.1) w in
    let size : length (m ∷ ms) + k ≡ suc (length ms + k) = omega arith in
    ap (λ (j : ℕ). add_all count (done ++ replicate j []) (m ∷ ms)) size
    ∙ ap (λ slots. add_all count slots ms)
        (here ∙ sym (append_assoc done (m ∷ []) (replicate (length ms + k) [])))
    ∙ rest
    ∙ ap (λ ss. ss ++ replicate k []) (append_assoc done (m ∷ []) ms)

-- Empty slots take the members in order.
pub add_all_empty :
    (count : ℕ) (ms : List Text)
    → length ms ≤ count
    → length ms ≤ max_nodes
    → AllWords ms
    → add_all count (replicate max_nodes []) ms ≡ ms ++ replicate (max_nodes - length ms) []
unfolding AllFull
add_all_empty count ms le room w =
    let whole : length ms + (max_nodes - length ms) ≡ max_nodes = omega arith in
    ap (λ (j : ℕ). add_all count (replicate j []) ms) (sym whole)
    ∙ add_all_filled count (max_nodes - length ms) [] ms (omega arith) (omega arith) tt w
