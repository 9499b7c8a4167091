-- ===== src/Storage/LogFile.antt =====
-- log.txt: `write_log`, `split_log_fields` and the loop that loads the log
-- (c/src/raft_storage.c). One entry to a line, its fields separated by bars.
pub mod Entries
pub mod Loading
use raft_rx.Prelude.{
  ℕ, zero, suc, ◌+◌, true, false, Option, none, some, List, [], ◌∷◌, ◌++◌, Text, if◌then◌else◌, ltb,
  leb, ◌==◌, set,
}
use raft_rx.Types.{Node, LogEntry, no_entry, max_id, max_op, max_key, max_value, max_log, copy}
use raft_rx.Decimal.{atoi, print_int}

-- fprintf(fp, "%d|%d|%s|%s|%s|%s\n", …)
unfoldable pub write_entry : LogEntry → Text
write_entry e =
    print_int e.index
    ++ b'|'
      ∷ (print_int e.term
          ++ b'|'
            ∷ (e.leader_id
                ++ b'|'
                  ∷ (e.command.op
                      ++ b'|' ∷ (e.command.key ++ b'|' ∷ (e.command.value ++ b'\n' ∷ [])))))

unfoldable pub write_slots : ℕ → List LogEntry → Text
unfolding write_entry
write_slots zero log = []
write_slots (suc count) [] = []
write_slots (suc count) (e ∷ log) = write_entry e ++ write_slots count log

unfoldable pub write_log : {S : Type 0} → Node S → Text
unfolding write_slots
write_log n = write_slots n.log_count n.log

-- The text up to a byte, and what follows the byte: strchr, and a NUL in its place.
unfoldable pub cut : ℕ → Text → Option (Text × Text)
cut sep [] = none
cut sep (c ∷ s) = elim (c == sep) [
  | true ↦ some ([], s)
  | false ↦ (elim (cut sep s) [ none ↦ none | some (a, b) ↦ some (c ∷ a, b) ])
]

-- The last field ends at the newline, if there is one.
last_field : Text → Text
last_field s = elim (cut b'\n' s) [ none ↦ s | some (a, b) ↦ a ]

-- The fields, or `none` for -1. The count is one more than the bars that are needed.
unfoldable pub split_log_fields : ℕ → Text → Option (List Text)
unfolding last_field
split_log_fields zero line = none
split_log_fields (suc zero) line = some (last_field line ∷ [])
split_log_fields (suc (suc more)) line = elim (cut b'|' line) [
  | none ↦ none
  | some (field, rest) ↦ (elim (split_log_fields (suc more) rest) [
    | none ↦ none
    | some fields ↦ some (field ∷ fields)
  ])
]

entry_of_six : List Text → LogEntry
entry_of_six (index ∷ term ∷ leader_id ∷ op ∷ key ∷ value ∷ []) = record {
  index = atoi index;
  term = atoi term;
  leader_id = copy max_id leader_id;
  command = record { op = copy max_op op; key = copy max_key key; value = copy max_value value };
}
entry_of_six _ = no_entry

-- The older format, which has no leader.
entry_of_five : List Text → LogEntry
entry_of_five (index ∷ term ∷ op ∷ key ∷ value ∷ []) = record {
  index = atoi index;
  term = atoi term;
  leader_id = [];
  command = record { op = copy max_op op; key = copy max_key key; value = copy max_value value };
}
entry_of_five _ = no_entry

unfoldable pub read_entry : Text → Option LogEntry
unfolding entry_of_six entry_of_five
read_entry line = elim (split_log_fields 6 line) [
  | some fields ↦ some (entry_of_six fields)
  | none ↦ (elim (split_log_fields 5 line) [
    | some fields ↦ some (entry_of_five fields)
    | none ↦ none
  ])
]

-- One round of the loop, over the slots and their count.
load_entry : ℕ → List LogEntry → ℕ → LogEntry → List LogEntry × ℕ
load_entry snapshot log count e =
    if leb e.index snapshot then (log, count) else (set log count e, count + 1)

unfoldable pub load_lines : ℕ → List LogEntry → ℕ → List Text → List LogEntry × ℕ
unfolding load_entry
load_lines snapshot log count [] = (log, count)
load_lines snapshot log count (line ∷ lines) =
    if ltb count max_log
    then (elim (read_entry line) [
      | none ↦ load_lines snapshot log count lines
      | some e ↦
          let (log', count') = load_entry snapshot log count e in
          load_lines snapshot log' count' lines
    ])
    else (log, count)
