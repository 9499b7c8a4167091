-- ===== src/Tcp/Scan.antt =====
-- Reading back what was printed (c/src/raft_tcp_transport.c, the calls of fscanf and fprintf of
-- `tcp_load_peers` and `tcp_save_peers`).
use raft_rx.Prelude.{
  ℕ, zero, suc, ◌-◌, ◌≤◌, ◌<◌, ◌≡◌, true, false, some, List, [], ◌∷◌, ◌++◌, Text, is_empty, length,
  arith, refl, ap, ◌∙◌,
}
use mathlib.Core.List.{append_assoc}
use raft_rx.Types.{max_id}
use raft_rx.Decimal.{
  print_int, is_blank, AllDigits, AllDigits-print_int, is_empty-print_int, atoi-print_int,
}
use raft_rx.Tcp.Peers.{
  Peer, max_host, peer_line, skip_blanks, scan_chars, scan_string, skip_digits, starts_number,
  scan_number, scan_peer,
}

abbrev pub HasNoBlanks : Text → Type 0
HasNoBlanks [] = Unit
HasNoBlanks (c ∷ s) = (is_blank c ≡ false) × HasNoBlanks s

-- A word that "%<size - 1>s" reads back.
abbrev pub IsWord : ℕ → Text → Type 0
IsWord size s = (is_empty s ≡ false) × HasNoBlanks s × (length s < size)

abbrev pub AreWords : List Peer → Type 0
AreWords [] = Unit
AreWords (p ∷ ps) = IsWord max_id p.id × IsWord max_host p.host × AreWords ps

scan_chars-word :
    (width : ℕ) (word : Text) (c : ℕ) (rest : Text)
    → HasNoBlanks word
    → length word ≤ width
    → is_blank c ≡ true
    → scan_chars width (word ++ c ∷ rest) ≡ (word, c ∷ rest)
unfolding scan_chars
scan_chars-word zero [] c rest w h b = refl
scan_chars-word zero (x ∷ word) c rest w h b = absurd (omega arith)
scan_chars-word (suc width) [] c rest w h b = ground (arith, b)
scan_chars-word (suc width) (x ∷ word) c rest w h b =
    ground (arith, w.0, scan_chars-word width word c rest w.1 (omega arith) b)

skip_blanks-word :
    (word rest : Text)
    → is_empty word ≡ false
    → HasNoBlanks word
    → skip_blanks (word ++ rest) ≡ word ++ rest
unfolding skip_blanks
skip_blanks-word [] rest e w = cc
skip_blanks-word (x ∷ word) rest e w = ground (arith, w.0)

scan_string-word :
    (size : ℕ) (word : Text) (c : ℕ) (rest : Text)
    → IsWord size word
    → is_blank c ≡ true
    → scan_string (size - 1) (word ++ c ∷ rest) ≡ some (word, c ∷ rest)
unfolding scan_string
scan_string-word size word c rest (e, w, h) b = ground (
  arith,
  e,
  skip_blanks-word word (c ∷ rest) e w,
  scan_chars-word (size - 1) word c rest w (omega (arith, h)) b,
)

skip_digits-number : (s rest : Text) → AllDigits s → skip_digits (s ++ b'\n' ∷ rest) ≡ b'\n' ∷ rest
unfolding skip_digits
skip_digits-number [] rest d = refl
skip_digits-number (c ∷ s) rest d = ground (arith, d.0, d.1, skip_digits-number s rest d.2)

HasNoBlanks-digits : (s : Text) → AllDigits s → HasNoBlanks s
unfolding is_blank
HasNoBlanks-digits [] d = tt
HasNoBlanks-digits (c ∷ s) d = (ground (arith, d.0, d.1), HasNoBlanks-digits s d.2)

starts_number-digits :
    (s rest : Text) → is_empty s ≡ false → AllDigits s → starts_number (s ++ rest) ≡ true
starts_number-digits [] rest e d = cc
starts_number-digits (c ∷ s) rest e d = ground (arith, d.0, d.1)

scan_number-print_int :
    (n : ℕ) (rest : Text) → scan_number (print_int n ++ b'\n' ∷ rest) ≡ some (n, b'\n' ∷ rest)
unfolding scan_number
scan_number-print_int n rest =
    let s = print_int n in
    let d = AllDigits-print_int n in
    let e = is_empty-print_int n in
    ground (
      arith,
      skip_blanks-word s (b'\n' ∷ rest) e (HasNoBlanks-digits s d),
      starts_number-digits s (b'\n' ∷ rest) e d,
      atoi-print_int n (b'\n' ∷ rest) refl,
      skip_digits-number s rest d,
    )

scan_string-skip :
    (width c : ℕ) (s : Text) → is_blank c ≡ true → scan_string width (c ∷ s) ≡ scan_string width s
unfolding scan_string skip_blanks
scan_string-skip width c s b = rw b refl

pub scan_peer-skip : (c : ℕ) (s : Text) → is_blank c ≡ true → scan_peer (c ∷ s) ≡ scan_peer s
unfolding scan_peer
scan_peer-skip c s b = ground (arith, scan_string-skip (max_id - 1) c s b)

scan_number-skip : (c : ℕ) (s : Text) → is_blank c ≡ true → scan_number (c ∷ s) ≡ scan_number s
unfolding scan_number skip_blanks
scan_number-skip c s b = rw b refl

peer_line-append :
    (p : Peer) (rest : Text)
    → peer_line p ++ rest ≡ p.id ++ b' ' ∷ (p.host ++ b' ' ∷ (print_int p.port ++ b'\n' ∷ rest))
unfolding peer_line
peer_line-append p rest =
    let number = print_int p.port ++ b'\n' ∷ [] in
    append_assoc p.id (b' ' ∷ (p.host ++ b' ' ∷ number)) rest
    ∙ ap (λ z. p.id ++ b' ' ∷ z)
        (append_assoc p.host (b' ' ∷ number) rest
          ∙ ap (λ z. p.host ++ b' ' ∷ z) (append_assoc (print_int p.port) (b'\n' ∷ []) rest))

pub scan_peer-line :
    (p : Peer) (rest : Text)
    → IsWord max_id p.id
    → IsWord max_host p.host
    → scan_peer (peer_line p ++ rest) ≡ some (p, b'\n' ∷ rest)
unfolding scan_peer is_blank
scan_peer-line p rest id host =
    let tail = print_int p.port ++ b'\n' ∷ rest in
    let after = b' ' ∷ (p.host ++ b' ' ∷ tail) in
    rw (peer_line-append p rest) (
      ground (
        arith,
        scan_string-word max_id p.id b' ' (p.host ++ b' ' ∷ tail) id refl,
        scan_string-skip (max_host - 1) b' ' (p.host ++ b' ' ∷ tail) refl,
        scan_string-word max_host p.host b' ' tail host refl,
        scan_number-skip b' ' tail refl,
        scan_number-print_int p.port rest,
      ))
