-- ===== src/Storage/LogFile/Entries.antt =====
-- log.txt is read back as it was written (c/src/raft_storage.c): an entry, and the whole log.
use raft_rx.Prelude.{
  ℕ, suc, ◌+◌, ◌-◌, ◌^◌, ◌≤◌, ◌<◌, ◌≡◌, ◌≢◌, ◌∙◌, some, List, [], ◌∷◌, ◌++◌, Text, arith, refl,
  length, length-append, take_all, ap, sym,
}
use mathlib.Core.List.{append_assoc, append-nil}
use raft_rx.Types.{LogEntry, max_id, max_op, max_key, max_value, copy}
use raft_rx.Decimal.{atoi, print_int, AllDigits-print_int, atoi-print_int, length-print_int}
use raft_rx.Storage.MetaFile.{lines_of}
use raft_rx.Storage.LogFile.{write_entry, split_log_fields, last_field, entry_of_six, read_entry}
use raft_rx.Storage.Lines.{
  Lacks, AllDigits-Lacks, AllDigits-Lacks_low, Lacks-append, cut-append, lines_of_line,
}

-- A text that a field of the file can hold: it fits the array it is read into, and has no newline.
abbrev IsField : ℕ → Text → Type 0
IsField size s = (length s < size) × Lacks b'\n' s

-- What an entry of the program has: numbers of an `int`, texts that fit, and no bar but in the value.
pub record IsPrintable (e : LogEntry) : Type 0 where
  pub index : e.index < 10 ^ 10
  pub term : e.term < 10 ^ 10
  pub leader_id : IsField max_id e.leader_id × Lacks b'|' e.leader_id
  pub op : IsField max_op e.command.op × Lacks b'|' e.command.op
  pub key : IsField max_key e.command.key × Lacks b'|' e.command.key
  pub value : IsField max_value e.command.value

-- The line without its newline.
body : LogEntry → Text
body e =
    print_int e.index
    ++ b'|'
      ∷ (print_int e.term
          ++ b'|'
            ∷ (e.leader_id
                ++ b'|' ∷ (e.command.op ++ b'|' ∷ (e.command.key ++ b'|' ∷ e.command.value))))

write_entry-body : (e : LogEntry) (rest : Text) → write_entry e ++ rest ≡ body e ++ b'\n' ∷ rest
unfolding write_entry body
write_entry-body e rest = simp append_assoc

read_entry-fields :
    (e : LogEntry) (index term leader_id op key value : Text)
    → atoi index ≡ e.index
    → atoi term ≡ e.term
    → copy max_id leader_id ≡ e.leader_id
    → copy max_op op ≡ e.command.op
    → copy max_key key ≡ e.command.key
    → copy max_value value ≡ e.command.value
    → entry_of_six (index ∷ term ∷ leader_id ∷ op ∷ key ∷ value ∷ []) ≡ e
unfolding entry_of_six
read_entry-fields e index term leader_id op key value a b c d f g = rw (a, b, c, d, f, g) refl

split_field :
    (more : ℕ) (s rest : Text) (fields : List Text)
    → Lacks b'|' s
    → split_log_fields (suc more) rest ≡ some fields
    → split_log_fields (suc (suc more)) (s ++ b'|' ∷ rest) ≡ some (s ∷ fields)
unfolding split_log_fields
split_field more s rest fields l e = ground (arith, cut-append b'|' s rest l)

split_last : (s : Text) → Lacks b'\n' s → split_log_fields 1 (s ++ b'\n' ∷ []) ≡ some (s ∷ [])
unfolding split_log_fields last_field
split_last s l = ground (arith, cut-append b'\n' s [] l)

split-write_entry :
    (e : LogEntry)
    → IsPrintable e
    → split_log_fields 6 (write_entry e)
      ≡ some (
          print_int e.index
          ∷ print_int e.term
          ∷ e.leader_id
          ∷ e.command.op
          ∷ e.command.key
          ∷ e.command.value
          ∷ [])
unfolding write_entry
split-write_entry e p =
    let digits =
      λ (n : ℕ). AllDigits-Lacks b'|' (print_int n) (omega arith) (AllDigits-print_int n) in
    split_field 4 (print_int e.index) _ _ (digits e.index) (
      split_field 3 (print_int e.term) _ _ (digits e.term) (
        split_field 2 e.leader_id _ _ p.leader_id.1 (
          split_field 1 e.command.op _ _ p.op.1
            (split_field 0 e.command.key _ _ p.key.1 (split_last e.command.value p.value.1)))))

copy_field : (size : ℕ) (s : Text) → length s < size → copy size s ≡ s
unfolding copy
copy_field size s h = take_all (size - 1) s (omega arith)

atoi_all : (n : ℕ) → atoi (print_int n) ≡ n
atoi_all n = ap atoi (sym (append-nil (print_int n))) ∙ atoi-print_int n [] tt

-- An entry whose texts fit and have no newline, and no bar but in the value, is read back from its line.
pub read-write_entry : (e : LogEntry) → IsPrintable e → read_entry (write_entry e) ≡ some e
unfolding read_entry
read-write_entry e p =
    let six =
      read_entry-fields e (print_int e.index) (print_int e.term) e.leader_id e.command.op
        e.command.key e.command.value (atoi_all e.index) (atoi_all e.term)
        (copy_field max_id _ p.leader_id.0.0) (copy_field max_op _ p.op.0.0)
        (copy_field max_key _ p.key.0.0) (copy_field max_value _ p.value.0) in
    rw (split-write_entry e p, read_entry) (ap (λ x. some x) six)

length-body : (e : LogEntry) → IsPrintable e → length (body e) + 2 ≤ 512
unfolding body
length-body e p =
    let t5 = e.command.key ++ b'|' ∷ e.command.value in
    let t4 = e.command.op ++ b'|' ∷ t5 in
    let t3 = e.leader_id ++ b'|' ∷ t4 in
    let t2 = print_int e.term ++ b'|' ∷ t3 in
    omega (
      arith,
      length-append (print_int e.index) (b'|' ∷ t2),
      length-append (print_int e.term) (b'|' ∷ t3),
      length-append e.leader_id (b'|' ∷ t4),
      length-append e.command.op (b'|' ∷ t5),
      length-append e.command.key (b'|' ∷ e.command.value),
      length-print_int 9 e.index p.index,
      length-print_int 9 e.term p.term,
      p.leader_id.0.0,
      p.op.0.0,
      p.key.0.0,
      p.value.0,
    )

body-Lacks : (e : LogEntry) → IsPrintable e → Lacks b'\n' (body e)
unfolding body
body-Lacks e p =
    let digits =
      λ (n : ℕ). AllDigits-Lacks_low b'\n' (print_int n) (omega arith) (AllDigits-print_int n) in
    let bar : b'|' ≢ b'\n' = omega arith in
    Lacks-append b'\n' _ _ (digits e.index) (
      bar,
      Lacks-append b'\n' _ _ (digits e.term) (
        bar,
        Lacks-append b'\n' _ _ p.leader_id.0.1 (
          bar,
          Lacks-append b'\n' _ _ p.op.0.1 (bar, Lacks-append b'\n' _ _ p.key.0.1 (bar, p.value.1)),
        ),
      ),
    )

pub lines_of-write_entry :
    (e : LogEntry) (rest : Text)
    → IsPrintable e
    → lines_of 512 (write_entry e ++ rest) ≡ write_entry e ∷ lines_of 512 rest
lines_of-write_entry e rest p =
    let line : write_entry e ≡ body e ++ b'\n' ∷ [] =
      sym (append-nil (write_entry e)) ∙ write_entry-body e [] in
    rw (write_entry-body e rest, line)
      (lines_of_line 512 (body e) rest (body-Lacks e p) (length-body e p))
