-- ===== src/Storage/MetaFile.antt =====
-- meta.txt: `write_meta` and the first loop of `raft_storage_node_load` (c/src/raft_storage.c).
pub mod Words
pub mod Reading
pub mod Whole
use raft_rx.Prelude.{
  ℕ, zero, suc, ◌+◌, ◌-◌, Bool, true, false, ◌&&◌, ◌||◌, Option, none, some, List, [], ◌∷◌, ◌++◌,
  Text, codes, same, is_empty, if◌then◌else◌, ltb, leb, ◌==◌, length, set, get_or, replicate,
}
use raft_rx.Types.{Node, max_nodes, max_log}
use raft_rx.Decimal.{atoi, print_int}

-- fprintf(fp, "<label> %d\n", n)
pub number_line : Text → ℕ → Text
number_line label n = label ++ (print_int n ++ b'\n' ∷ [])

-- fprintf(fp, "<label> %s\n", s)
pub text_line : Text → Text → Text
text_line label s = label ++ (s ++ b'\n' ∷ [])

pub text_lines : Text → List Text → Text
text_lines label [] = []
text_lines label (s ∷ ss) = text_line label s ++ text_lines label ss

unfoldable pub write_meta : {S : Type 0} → Node S → Text
unfolding number_line text_line text_lines
write_meta n =
    number_line (codes "current_term ") n.current_term
    ++ (text_line (codes "voted_for ") (if is_empty n.voted_for then codes "-" else n.voted_for)
        ++ (number_line (codes "compaction_threshold ") n.compaction_threshold
            ++ (number_line (codes "commit_index ") n.commit_index
                ++ (number_line (codes "snapshot_last_included_index ")
                      n.snapshot_last_included_index
                    ++ (number_line (codes "snapshot_last_included_term ")
                          n.snapshot_last_included_term
                        ++ (number_line (codes "configuration_index ") n.config_state.index
                            ++ (number_line (codes "old_count ") (length n.config_state.old_members)
                                ++ (text_lines (codes "old_member ") n.config_state.old_members
                                    ++ (number_line (codes "new_count ")
                                          (length n.config_state.new_members)
                                        ++ text_lines (codes "new_member ")
                                            n.config_state.new_members)))))))))

-- The lines that fgets(line, size, fp) returns, with the line read so far. A line keeps its newline;
-- one of `size - 1` bytes or more is cut.
unfoldable pub lines_from : ℕ → Text → Text → List Text
lines_from size line [] = if is_empty line then [] else line ∷ []
lines_from size line (c ∷ s) = elim (c == b'\n' || suc (length line) == size - 1) [
  | true ↦ (line ++ c ∷ []) ∷ lines_from size [] s
  | false ↦ lines_from size (line ++ c ∷ []) s
]

unfoldable pub lines_of : ℕ → Text → List Text
unfolding lines_from
lines_of size s = lines_from size [] s

-- strncmp(line, label, strlen(label)) == 0, with what follows the label.
after : Text → Text → Option Text
after [] line = some line
after (c ∷ label) [] = none
after (c ∷ label) (x ∷ line) = let rest = after label line in if c == x then rest else none

unfoldable pub is_space : ℕ → Bool
is_space c = c == 32 || leb 9 c && leb c 13

word_from : ℕ → Text → Text
word_from zero s = []
word_from (suc left) [] = []
word_from (suc left) (c ∷ s) = let rest = word_from left s in if is_space c then [] else c ∷ rest

-- sscanf(s, "%15s", dst): dst keeps its value if there is no word.
pub scan_word : Text → Text → Text
unfolding is_space word_from
scan_word dst [] = dst
scan_word dst (c ∷ s) = elim (is_space c) [ true ↦ scan_word dst s | false ↦ word_from 15 (c ∷ s) ]

-- What the loop fills in: the arrays of members are whole, `max_nodes` slots each.
pub record Meta : Type 0 where
  pub current_term : ℕ
  pub voted_for : Text
  pub compaction_threshold : ℕ
  pub commit_index : ℕ
  pub snapshot_index : ℕ
  pub snapshot_term : ℕ
  pub configuration_index : ℕ
  pub old_count : ℕ
  pub old_slots : List Text
  pub new_count : ℕ
  pub new_slots : List Text

unfoldable pub no_meta : Meta
no_meta = record {
  current_term = 0;
  voted_for = [];
  compaction_threshold = max_log;
  commit_index = 0;
  snapshot_index = 0;
  snapshot_term = 0;
  configuration_index = 0;
  old_count = 0;
  old_slots = replicate max_nodes [];
  new_count = 0;
  new_slots = replicate max_nodes [];
}

read_vote : Text → Text → Text
unfolding scan_word
read_vote old rest = let vote = scan_word old rest in if same vote (codes "-") then [] else vote

-- while (idx < count && slots[idx][0] != '\0') idx++;
first_free : ℕ → ℕ → List Text → ℕ
first_free idx zero slots = idx
first_free idx (suc left) [] = idx
first_free idx (suc left) (m ∷ slots) =
    let rest = first_free (idx + 1) left slots in if is_empty m then idx else rest

pub add_member : ℕ → List Text → Text → List Text
unfolding first_free scan_word
add_member count slots rest =
    let idx = first_free 0 count slots in
    if ltb idx max_nodes then set slots idx (scan_word (get_or slots idx []) rest) else slots

at_most : ℕ → ℕ → ℕ
at_most limit k = if ltb limit k then limit else k

-- One label of the chain of tests: `found` if the line begins with it, else the rest of the chain.
label_case : Text → Text → (Text → Meta) → Meta → Meta
unfolding after
label_case label line found other = elim (after label line) [
  | none ↦ other
  | some rest ↦ found rest
]

unfoldable pub read_meta_line : Meta → Text → Meta
unfolding label_case read_vote add_member at_most
read_meta_line m line =
    label_case (codes "current_term ") line (λ s. record m { current_term = atoi s })
      (label_case (codes "voted_for ") line (λ s. record m { voted_for = read_vote m.voted_for s })
        (label_case (codes "compaction_threshold ") line
          (λ s. record m { compaction_threshold = atoi s })
          (label_case (codes "commit_index ") line (λ s. record m { commit_index = atoi s })
            (label_case (codes "snapshot_last_included_index ") line
              (λ s. record m { snapshot_index = atoi s })
              (label_case (codes "snapshot_last_included_term ") line
                (λ s. record m { snapshot_term = atoi s })
                (label_case (codes "configuration_index ") line
                  (λ s. record m { configuration_index = atoi s })
                  (label_case (codes "old_count ") line
                    (λ s. record m { old_count = at_most max_nodes (atoi s) })
                    (label_case (codes "old_member ") line
                      (λ s. record m { old_slots = add_member m.old_count m.old_slots s })
                      (label_case (codes "new_count ") line
                        (λ s. record m { new_count = at_most max_nodes (atoi s) })
                        (label_case (codes "new_member ") line
                          (λ s. record m { new_slots = add_member m.new_count m.new_slots s })
                          m))))))))))

pub read_meta_lines : Meta → List Text → Meta
read_meta_lines m [] = m
read_meta_lines m (l ∷ ls) = read_meta_lines (read_meta_line m l) ls

unfoldable pub read_meta : Option Text → Meta
unfolding read_meta_lines
read_meta none = no_meta
read_meta (some s) = read_meta_lines no_meta (lines_of 512 s)
