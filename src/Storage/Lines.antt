-- ===== src/Storage/Lines.antt =====
-- The texts that the files of c/src/raft_storage.c are made of: bytes that a text lacks, and the
-- lines that fgets returns.
use mathlib.Core.List.{append_assoc}
use raft_rx.Prelude.{
  ℕ, ◌+◌, ◌≤◌, ◌<◌, ◌≡◌, ◌≢◌, some, [], ◌∷◌, ◌++◌, Text, arith, refl, length, length-append,
}
use raft_rx.Decimal.{AllDigits}
use raft_rx.Storage.MetaFile.{lines_from, lines_of}
use raft_rx.Storage.LogFile.{cut}

abbrev pub Lacks : ℕ → Text → Type 0
Lacks sep [] = Unit
Lacks sep (c ∷ s) = (c ≢ sep) × Lacks sep s

pub AllDigits-Lacks : (sep : ℕ) (s : Text) → b'9' < sep → AllDigits s → Lacks sep s
AllDigits-Lacks sep [] h d = tt
AllDigits-Lacks sep (c ∷ s) h (lo, hi, d) = (omega arith, AllDigits-Lacks sep s h d)

pub AllDigits-Lacks_low : (sep : ℕ) (s : Text) → sep < b'0' → AllDigits s → Lacks sep s
AllDigits-Lacks_low sep [] h d = tt
AllDigits-Lacks_low sep (c ∷ s) h (lo, hi, d) = (omega arith, AllDigits-Lacks_low sep s h d)

pub Lacks-append : (sep : ℕ) (s t : Text) → Lacks sep s → Lacks sep t → Lacks sep (s ++ t)
Lacks-append sep [] t a b = b
Lacks-append sep (c ∷ s) t (x, a) b = (x, Lacks-append sep s t a b)

-- A text is cut at the first byte that it lacked before.
pub cut-append :
    (sep : ℕ) (s rest : Text) → Lacks sep s → cut sep (s ++ sep ∷ rest) ≡ some (s, rest)
unfolding cut
cut-append sep [] rest l = ground arith
cut-append sep (c ∷ s) rest (x, l) = ground (arith, cut-append sep s rest l)

lines_from_line :
    (size : ℕ) (line s rest : Text)
    → Lacks b'\n' s
    → length line + length s + 2 ≤ size
    → lines_from size line (s ++ b'\n' ∷ rest)
      ≡ (line ++ (s ++ b'\n' ∷ [])) ∷ lines_from size [] rest
unfolding lines_from
lines_from_line size line [] rest l h = refl
lines_from_line size line (c ∷ s) rest (x, l) h = ground (
  arith,
  lines_from_line size (line ++ c ∷ []) s rest l (omega (arith, h, length-append line (c ∷ []))),
  append_assoc line (c ∷ []) (s ++ b'\n' ∷ []),
)

-- A text without a newline, and the newline, is the first line if the buffer has room for it.
pub lines_of_line :
    (size : ℕ) (s rest : Text)
    → Lacks b'\n' s
    → length s + 2 ≤ size
    → lines_of size (s ++ b'\n' ∷ rest) ≡ (s ++ b'\n' ∷ []) ∷ lines_of size rest
unfolding lines_of
lines_of_line size s rest l h = lines_from_line size [] s rest l (omega (arith, h))
