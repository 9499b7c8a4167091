-- ===== src/Types.antt =====
-- The data of include/raft/raft.h (c/include/raft/raft.h).
-- A char array is the string it holds; a flag is a Bool; an array with a count beside it is the list
-- of its first elements, except for `log`, `next_index` and `match_index` of a node, of which the
-- code reads elements past the count or keeps them by position: these are the whole arrays.
use raft_rx.Prelude.{ℕ, ◌-◌, Bool, List, [], Option, Text, take}

abbrev pub max_nodes : ℕ
max_nodes = 8

abbrev pub max_peers : ℕ
max_peers = max_nodes - 1

abbrev pub max_id : ℕ
max_id = 16

abbrev pub max_log : ℕ
max_log = 128

abbrev pub max_queue : ℕ
max_queue = 256

abbrev pub max_batch : ℕ
max_batch = 16

abbrev pub max_op : ℕ
max_op = 32

abbrev pub max_key : ℕ
max_key = 64

abbrev pub max_value : ℕ
max_value = 128

abbrev pub max_snapshot_size : ℕ
max_snapshot_size = 4096

-- strncpy(dst, src, size - 1) into a buffer of `size` bytes whose last byte is NUL.
unfoldable pub copy : ℕ → Text → Text
copy size s = take (size - 1) s

pub data Role : Type 0 where
  follower candidate leader : Role

pub data MembershipState : Type 0 where
  stable joint_pending joint finalizing : MembershipState

pub data MessageKind : Type 0 where
  request_vote request_vote_response append_entries append_entries_response : MessageKind

pub record Command : Type 0 where
  pub op : Text
  pub key : Text
  pub value : Text

pub record LogEntry : Type 0 where
  pub index : ℕ
  pub term : ℕ
  pub leader_id : Text
  pub command : Command

pub record Message : Type 0 where
  pub kind : MessageKind
  pub term : ℕ
  pub source : Text
  pub target : Text
  pub granted : Bool
  pub success : Bool
  pub prev_log_index : ℕ
  pub prev_log_term : ℕ
  pub prev_log_leader_id : Text
  pub leader_commit : ℕ
  pub match_index : ℕ
  pub last_log_index : ℕ
  pub last_log_term : ℕ
  pub entries : List LogEntry

-- The callbacks of the application, over the state that `user` points to. A null pointer is `none`.
pub record Application (S : Type 0) : Type 0 where
  pub apply : Option (S → Command → S)
  pub reload : Option (S → S)
  pub snapshot : Option (S → ℕ → List ℕ)
  pub restore_snapshot : Option (S → List ℕ → S)

pub record NodeConfig : Type 0 where
  pub node_id : Text
  pub peers : List Text
  pub initial_members : List Text
  pub learner : Bool
  pub election_timeout_ms : ℕ
  pub heartbeat_interval_ms : ℕ

pub record ClusterConfiguration : Type 0 where
  pub old_members : List Text
  pub new_members : List Text
  pub index : ℕ

pub record Node (S : Type 0) : Type 0 where
  pub config : NodeConfig
  pub application : Application S
  pub user : S  -- what application.user points to
  pub snapshot_buf : List ℕ  -- storage.snapshot_buf, snapshot_buf_size bytes of it
  pub state : Role  -- machine.state
  pub current_term : ℕ
  pub voted_for : Text
  pub log : List LogEntry  -- all the slots of the array
  pub log_count : ℕ
  pub snapshot_last_included_index : ℕ
  pub snapshot_last_included_term : ℕ
  pub commit_index : ℕ
  pub last_applied : ℕ
  pub leader_id : Text
  pub compaction_threshold : ℕ
  pub running : Bool
  pub config_state : ClusterConfiguration
  pub membership_state : MembershipState
  pub requested_membership : List Text
  pub requested_membership_pending : Bool
  pub joint_config_index : Option ℕ  -- `none` is -1
  pub final_config_index : Option ℕ  -- `none` is -1
  pub votes_received : List Text
  pub next_index : List ℕ  -- all the slots of the array
  pub match_index : List ℕ  -- all the slots of the array
  pub outbox : List Message
  pub pending_append_entries : List Message
  pub pending_vote_requests : List Message
  pub pending_votes : List Message
  pub persist_dirty : Bool
  pub election_deadline_ms : ℕ
  pub heartbeat_deadline_ms : ℕ

abbrev pub no_command : Command
no_command = record { op = []; key = []; value = [] }

-- A zeroed entry.
abbrev pub no_entry : LogEntry
no_entry = record { index = 0; term = 0; leader_id = []; command = no_command }

-- A zeroed message, but for its kind.
abbrev pub new_message : MessageKind → Message
new_message k = record {
  kind = k;
  term = 0;
  source = [];
  target = [];
  granted = Bool.false;
  success = Bool.false;
  prev_log_index = 0;
  prev_log_term = 0;
  prev_log_leader_id = [];
  leader_commit = 0;
  match_index = 0;
  last_log_index = 0;
  last_log_term = 0;
  entries = [];
}
