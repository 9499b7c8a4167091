-- ===== src/Cli.antt =====
-- What the command lines of the two example programs share (c/examples/counter/src/counter_cli.c,
-- c/examples/demo_app/src/cli_fsm.c): words of a line, addresses, the names of roles, and the queue of
-- join requests.
pub mod Pending
use raft_rx.Prelude.{
  ℕ, zero, suc, ◌+◌, ◌-◌, Bool, true, false, ◌&&◌, ◌||◌, Option, none, some, List, [], ◌∷◌, ◌++◌,
  Text, codes, same, is_empty, if◌then◌else◌, ltb, leb, ◌==◌, length, take,
}
use raft_rx.Types.{Role, Command, follower, candidate, leader, max_nodes, max_queue}
use raft_rx.Decimal.{atoi}
use raft_rx.Tcp.{Tcp, recv_fwd_cmds, recv_joins}
use raft_rx.Tcp.Frames.{JoinRequest}

-- What select and fgets say of stdin: nothing to read, its end, or a line.
pub data Input : Type 0 where
  nothing end : Input
  a_line : Text → Input

-- A zeroed request.
abbrev pub no_request : JoinRequest
no_request = record {
  node_id = [];
  host = [];
  port = 0;
  forwarded = 0;
  cluster_join = false;
  members = [];
}

unfoldable pub role_name : Role → Text
role_name leader = codes "LEADER"
role_name candidate = codes "CANDIDATE"
role_name follower = codes "FOLLOWER"

abbrev pub same_role : Role → Role → Bool
same_role follower follower = true
same_role candidate candidate = true
same_role leader leader = true
same_role _ _ = false

-- The text up to the last colon, and what follows it.
unfoldable pub split_last : Text → Option (Text × Text)
split_last [] = none
split_last (c ∷ s) = elim (split_last s) [
  | some (a, b) ↦ some (c ∷ a, b)
  | none ↦ (if c == b':' then some ([], s) else none)
]

-- The host and the port of HOST:PORT, for a buffer of `size` bytes.
unfoldable pub parse_host_port : Text → ℕ → Option (Text × ℕ)
parse_host_port arg size = elim (split_last arg) [
  | none ↦ none
  | some (host, rest) ↦
      (if is_empty host || leb size (length host)
        then none
        else (if ltb 0 (atoi rest) then some (host, atoi rest) else none))
]

-- The line up to its newline.
unfoldable pub before_newline : Text → Text
before_newline [] = []
before_newline (c ∷ s) = let rest = before_newline s in if c == b'\n' then [] else c ∷ rest

abbrev pub is_separator : ℕ → Bool
is_separator c = c == 32 || c == 9

-- strtok(line, " \t"), called again and again, with the word read so far.
unfoldable pub words_from : Text → Text → List Text
words_from word [] = if is_empty word then [] else word ∷ []
words_from word (c ∷ s) = elim (is_separator c) [
  | true ↦ (if is_empty word then words_from [] s else word ∷ words_from [] s)
  | false ↦ words_from (word ++ c ∷ []) s
]

-- The first `most` words of a line.
unfoldable pub words : ℕ → Text → List Text
words most line = take most (words_from [] (before_newline line))

-- Another request by the same node, for the same step, waits already.
unfoldable pub is_waiting : List JoinRequest → JoinRequest → Bool
is_waiting [] j = false
is_waiting (p ∷ ps) j = same p.node_id j.node_id && p.forwarded == j.forwarded || is_waiting ps j

unfoldable pub gather : List JoinRequest → List JoinRequest → List JoinRequest
gather pending [] = pending
gather pending (j ∷ js) =
    if is_waiting pending j
    then gather pending js
    else gather (if ltb (length pending) max_nodes then pending ++ j ∷ [] else pending) js

-- What a latch of inputs takes from the transport: the commands that others forward, up to the room
-- left, and the join requests that do not wait yet.
unfoldable pub latch_commands : Tcp → List Command → Tcp × List Command
latch_commands t waiting =
    let (t1, cs) = recv_fwd_cmds t (max_queue - length waiting) in (t1, waiting ++ cs)

unfoldable pub latch_joins : Tcp → List JoinRequest → Tcp × List JoinRequest
latch_joins t pending = let (t1, js) = recv_joins t max_nodes in (t1, gather pending js)
