-- ===== src/Storage/MetaFile/Whole.antt =====
-- meta.txt is read back as it was written (c/src/raft_storage.c).
use mathlib.Core.List.{append-nil}
use raft_rx.Prelude.{
  ◌-◌, ◌^◌, ◌≤◌, ◌<◌, ◌≡◌, ◌≢◌, ◌∙◌, ◌⊎◌, some, List, [], ◌++◌, Text, codes, arith, refl, ap, sym,
  length, replicate, ℕ, true,
}
use raft_rx.Types.{Node, max_nodes}
use raft_rx.Decimal.{atoi}
use raft_rx.Storage.MetaFile.{
  Meta, no_meta, number_line, text_lines, write_meta, lines_of, lines_from, read_meta_line,
  read_meta_lines, read_meta, label_case, after,
}
use raft_rx.Storage.MetaFile.Words.{IsWord, AllWords, add_all, add_all_empty}
use raft_rx.Storage.MetaFile.Reading.{
  lacks, IsLabel, read_number, read_old_count, read_new_count, read_vote_line, read_old_members,
  read_new_members,
}

-- What a node that is written has: numbers of an `int`, and names that "%15s" reads whole; "-"
-- stands for no vote.
pub record IsSaveable {S : Type 0} (n : Node S) : Type 0 where
  pub term : n.current_term < 10 ^ 10
  pub threshold : n.compaction_threshold < 10 ^ 10
  pub commit : n.commit_index < 10 ^ 10
  pub snapshot_index : n.snapshot_last_included_index < 10 ^ 10
  pub snapshot_term : n.snapshot_last_included_term < 10 ^ 10
  pub configuration : n.config_state.index < 10 ^ 10
  pub vote : (n.voted_for ≡ []) ⊎ (IsWord n.voted_for × (n.voted_for ≢ codes "-"))
  pub old_room : length n.config_state.old_members ≤ max_nodes
  pub old_words : AllWords n.config_state.old_members
  pub new_room : length n.config_state.new_members ≤ max_nodes
  pub new_words : AllWords n.config_state.new_members

-- The slots of an array of members.
abbrev pub slots_of : List Text → List Text
slots_of ms = ms ++ replicate (max_nodes - length ms) []

unfoldable pub meta_of : {S : Type 0} → Node S → Meta
meta_of n = record {
  current_term = n.current_term;
  voted_for = n.voted_for;
  compaction_threshold = n.compaction_threshold;
  commit_index = n.commit_index;
  snapshot_index = n.snapshot_last_included_index;
  snapshot_term = n.snapshot_last_included_term;
  configuration_index = n.config_state.index;
  old_count = length n.config_state.old_members;
  old_slots = slots_of n.config_state.old_members;
  new_count = length n.config_state.new_members;
  new_slots = slots_of n.config_state.new_members;
}

-- A line of a number whose label says which field.
read_field :
    (m : Meta) (label rest : Text) (n : ℕ) (f : ℕ → Meta)
    → lacks b'\n' label ≡ true
    → length label ≤ 100
    → n < 10 ^ 10
    → ((s : Text) → read_meta_line m (label ++ s) ≡ f (atoi s))
    → read_meta_lines m (lines_of 512 (number_line label n ++ rest))
      ≡ read_meta_lines (f n) (lines_of 512 rest)
unfolding number_line IsLabel
read_field m label rest n f l s h e = read_number m label rest n f (l, s) h (e _)

read_nothing : (m : Meta) → read_meta_lines m (lines_of 512 []) ≡ m
unfolding read_meta_lines lines_of lines_from
read_nothing m = refl

-- The members of the old configuration and, after them, those of the new one.
read_configuration :
    {S : Type 0} (n : Node S) (m : Meta)
    → IsSaveable n
    → m.old_slots ≡ replicate max_nodes []
    → m.new_slots ≡ replicate max_nodes []
    → read_meta_lines m (
        lines_of 512 (
          number_line (codes "old_count ") (length n.config_state.old_members)
          ++ (text_lines (codes "old_member ") n.config_state.old_members
              ++ (number_line (codes "new_count ") (length n.config_state.new_members)
                  ++ text_lines (codes "new_member ") n.config_state.new_members))))
      ≡ record m {
        old_count = length n.config_state.old_members;
        old_slots = slots_of n.config_state.old_members;
        new_count = length n.config_state.new_members;
        new_slots = slots_of n.config_state.new_members;
      }
read_configuration n m p eo en =
    let olds = n.config_state.old_members in
    let news = n.config_state.new_members in
    let fill = λ (os ns : List Text). record m {
      old_count = length olds;
      old_slots = os;
      new_count = length news;
      new_slots = ns;
    } in
    let m1 = record m { old_count = length olds } in
    let m2 = record m1 { old_slots = add_all (length olds) m.old_slots olds } in
    let m3 = record m2 { new_count = length news } in
    read_old_count m (length olds) _ p.old_room
    ∙ read_old_members m1 olds _ p.old_words
    ∙ read_new_count m2 (length news) _ p.new_room
    ∙ ap (λ t. read_meta_lines m3 (lines_of 512 t)) (sym (append-nil _))
    ∙ read_new_members m3 news [] p.new_words
    ∙ read_nothing
        (fill (add_all (length olds) m.old_slots olds) (add_all (length news) m.new_slots news))
    ∙ ap (λ ss. fill ss (add_all (length news) m.new_slots news))
        (ap (λ ss. add_all (length olds) ss olds) eo
          ∙ add_all_empty (length olds) olds (omega arith) p.old_room p.old_words)
    ∙ ap (fill (slots_of olds)) (
        ap (λ ss. add_all (length news) ss news) en
        ∙ add_all_empty (length news) news (omega arith) p.new_room p.new_words)

-- meta.txt is read back: a saveable node's term, vote, threshold, indexes and configurations.
pub read_meta-write_meta :
    {S : Type 0} (n : Node S) → IsSaveable n → read_meta (some (write_meta n)) ≡ meta_of n
unfolding read_meta write_meta read_meta_line label_case after lacks no_meta meta_of
read_meta-write_meta n p =
    let m1 = record no_meta { current_term = n.current_term } in
    let m2 = record m1 { voted_for = n.voted_for } in
    let m3 = record m2 { compaction_threshold = n.compaction_threshold } in
    let m4 = record m3 { commit_index = n.commit_index } in
    let m5 = record m4 { snapshot_index = n.snapshot_last_included_index } in
    let m6 = record m5 { snapshot_term = n.snapshot_last_included_term } in
    let m7 = record m6 { configuration_index = n.config_state.index } in
    read_field no_meta (codes "current_term ") _ n.current_term
      (λ x. record no_meta { current_term = x }) refl (omega arith) p.term (λ s. refl)
    ∙ read_vote_line m1 n.voted_for _ p.vote
    ∙ read_field m2 (codes "compaction_threshold ") _ n.compaction_threshold
        (λ x. record m2 { compaction_threshold = x }) refl (omega arith) p.threshold (λ s. refl)
    ∙ read_field m3 (codes "commit_index ") _ n.commit_index (λ x. record m3 { commit_index = x })
        refl (omega arith) p.commit (λ s. refl)
    ∙ read_field m4 (codes "snapshot_last_included_index ") _ n.snapshot_last_included_index
        (λ x. record m4 { snapshot_index = x }) refl (omega arith) p.snapshot_index (λ s. refl)
    ∙ read_field m5 (codes "snapshot_last_included_term ") _ n.snapshot_last_included_term
        (λ x. record m5 { snapshot_term = x }) refl (omega arith) p.snapshot_term (λ s. refl)
    ∙ read_field m6 (codes "configuration_index ") _ n.config_state.index
        (λ x. record m6 { configuration_index = x }) refl (omega arith) p.configuration (λ s. refl)
    ∙ read_configuration n m7 p refl refl
