-- ===== src/Demo/Line/Show.antt =====
-- What the command line of the demonstration shows of its node (c/examples/demo_app/src/cli_fsm.c:
-- `print_status`, `cmd_leader`, `cmd_get`, `cmd_members`, `cmd_log`, `cmd_help`).
use raft_rx.Prelude.{
  ℕ, ◌+◌, ◌-◌, List, [], ◌∷◌, ◌++◌, Text, codes, is_empty, if◌then◌else◌, leb, ◌==◌, length, take,
  replicate, get_or,
}
use raft_rx.Types.{Node, LogEntry}
use raft_rx.Decimal.{print_int}
use raft_rx.Members.{configuration_is_joint, is_leader_role}
use raft_rx.Kv
use raft_rx.Cli.{role_name}
use raft_rx.Demo.Line.{Demo, node_of, say}

unfoldable pub concat : List Text → Text
concat [] = []
concat (s ∷ ss) = s ++ concat ss

-- "%-<width>s"
abbrev pub pad : ℕ → Text → Text
pad width s = s ++ replicate (width - length s) 32

-- The names of a half, separated by commas.
unfoldable pub members_text : List Text → Text
members_text [] = []
members_text (m ∷ []) = m
members_text (m ∷ n ∷ ms) = m ++ b',' ∷ members_text (n ∷ ms)

unfoldable pub entry_line : ℕ → LogEntry → Text
entry_line commit_index e = concat (
    codes "["
    ∷ print_int e.index
    ∷ codes "] "
    ∷ (if leb e.index commit_index then codes "COMMITTED  " else codes "UNCOMMITTED")
    ∷ codes " term="
    ∷ print_int e.term
    ∷ codes " op="
    ∷ e.command.op
    ∷ codes " key="
    ∷ e.command.key
    ∷ codes " value="
    ∷ e.command.value
    ∷ [])

unfoldable pub entry_lines : ℕ → List LogEntry → List Text
entry_lines commit_index [] = []
entry_lines commit_index (e ∷ es) = entry_line commit_index e ∷ entry_lines commit_index es

module _ {S : Type 0} where
  unfoldable pub status_line : Node S → Text
  status_line n = concat (
      codes "id="
      ∷ pad 4 n.config.node_id
      ∷ codes "  running="
      ∷ pad 3 (if n.running then codes "yes" else codes "no")
      ∷ codes "  role="
      ∷ pad 9 (role_name n.state)
      ∷ codes "  term="
      ∷ pad 3 (print_int n.current_term)
      ∷ codes "  commit="
      ∷ pad 3 (print_int n.commit_index)
      ∷ codes "  log="
      ∷ pad 3 (print_int n.log_count)
      ∷ codes "  leader="
      ∷ (if is_empty n.leader_id then codes "none" else n.leader_id)
      ∷ [])

  -- The loop over the peers, with the position of the next.
  unfoldable pub peer_lines : Node S → ℕ → List Text → List Text
  peer_lines n i [] = []
  peer_lines n i (p ∷ ps) =
      let matched = get_or n.match_index i 0 in
      (if is_leader_role n.state
        then concat (
            codes "  "
            ∷ pad 4 p
            ∷ codes "  match="
            ∷ pad 3 (print_int matched)
            ∷ codes "  "
            ∷ (if leb n.commit_index matched then codes "in sync" else codes "behind")
            ∷ [])
        else codes "  " ++ pad 4 p)
      ∷ peer_lines n (i + 1) ps

module _ {U W : Type 0} where
  unfoldable pub print_status : Demo U W → Demo U W
  print_status c =
      let n = node_of c in record c { out = c.out ++ status_line n ∷ peer_lines n 0 n.config.peers }

  unfoldable pub cmd_leader : Demo U W → Demo U W
  cmd_leader c =
      let n = node_of c in
      say
        (if is_leader_role n.state
          then n.config.node_id ++ codes " (this node)"
          else (if is_empty n.leader_id then codes "unknown" else n.leader_id))
        c

  unfoldable pub cmd_get : Demo U W → Text → Demo U W
  cmd_get c key = say (Kv.get (node_of c).user.0 key) c

  unfoldable pub cmd_members : Demo U W → Demo U W
  cmd_members c =
      let config = (node_of c).config_state in
      let joint = configuration_is_joint config in
      say
        (concat (
          codes "mode="
          ∷ (if joint then codes "joint" else codes "stable")
          ∷ codes " old=["
          ∷ members_text config.old_members
          ∷ (if joint then codes "] new=[" ++ members_text config.new_members else [])
          ∷ codes "]"
          ∷ []))
        c

  unfoldable pub cmd_log : Demo U W → Demo U W
  cmd_log c =
      let n = node_of c in
      let head = concat (
        codes "term="
        ∷ print_int n.current_term
        ∷ codes " role="
        ∷ role_name n.state
        ∷ codes " log="
        ∷ print_int n.log_count
        ∷ codes " snapshot="
        ∷ print_int n.snapshot_last_included_index
        ∷ codes " commit="
        ∷ print_int n.commit_index
        ∷ codes " applied="
        ∷ print_int n.last_applied
        ∷ []) in
      record c {
        out =
            c.out
            ++ head
              ∷ (if n.log_count == 0
                  then codes "(empty)" ∷ []
                  else entry_lines n.commit_index (take n.log_count n.log));
      }

  unfoldable pub cmd_help : Demo U W → Demo U W
  cmd_help c = record c {
    out =
        c.out
        ++ codes "Commands:"
          ∷ codes "  set    KEY VALUE   enqueue set(KEY,VALUE) — leader only"
          ∷ codes "  get    KEY         read KEY from local KV state"
          ∷ codes "  delete KEY         enqueue delete(KEY) — leader only"
          ∷ codes "  status             show local node status"
          ∷ codes "  leader             show who is leader"
          ∷ codes "  port   PORT        start listening on PORT"
          ∷ codes "  join   HOST:PORT   leave current cluster, then join another as this node"
          ∷ codes "  merge HOST:PORT  merge this cluster with another cluster"
          ∷ codes "  stop               simulate local node crash"
          ∷ codes "  start              simulate local node restart"
          ∷ codes "  members            show membership config"
          ∷ codes "  log                show Raft log"
          ∷ codes "  addnode NODE       add NODE to cluster — leader only"
          ∷ codes "  rmnode  NODE       remove NODE from cluster — leader only"
          ∷ codes "  leave              remove this node from cluster — leader only"
          ∷ codes "  help               this message"
          ∷ codes "  quit               exit"
          ∷ [];
  }
