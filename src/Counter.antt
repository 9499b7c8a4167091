-- ===== src/Counter.antt =====
-- The replicated counter (c/examples/counter/src/main.c): its application, `counter_apply` and the
-- other callbacks, and its arguments. The value is what `application.user` points to.
pub mod Line
pub mod Phases
pub mod Leader
pub mod Snapshot
use raft_rx.Prelude.{
  ℕ, ◌+◌, Bool, true, false, ◌&&◌, ◌||◌, Option, none, some, List, [], ◌∷◌, ◌++◌, Text, codes, same,
  is_empty, if◌then◌else◌, ltb, leb, ◌==◌, length, take,
}
use raft_rx.Types.{Application, Command, NodeConfig, max_id, copy}
use raft_rx.Decimal.{atoi, print_int}

unfoldable pub counter_apply : ℕ → Command → ℕ
counter_apply value c =
    if same c.op (codes "inc") then value + 1 else (if same c.op (codes "reset") then 0 else value)

-- snprintf(buf, buf_size, "%d\n", value), or nothing if it does not fit.
unfoldable pub counter_snapshot : ℕ → ℕ → Text
counter_snapshot value size =
    let text = print_int value ++ b'\n' ∷ [] in if leb size (length text) then [] else text

-- atoi of at most 31 bytes.
unfoldable pub counter_restore_snapshot : Text → ℕ
counter_restore_snapshot bytes = atoi (take 31 bytes)

unfoldable pub counter_application : Application ℕ
counter_application = record {
  apply = some counter_apply;
  reload = some (λ value. 0);
  snapshot = some counter_snapshot;
  restore_snapshot = some (λ value bytes. counter_restore_snapshot bytes);
}

-- counter_args_t
pub record Args : Type 0 where
  pub node_id : Text
  pub port : ℕ
  pub host : Text
  pub data_dir : Text

abbrev pub default_args : Args
default_args = record {
  node_id = [];
  port = 0;
  host = codes "127.0.0.1";
  data_dir = codes "var/counter";
}

-- The loop over argv; `none` where the program ends with the usage.
unfoldable pub parse_loop : Args → List Text → Option Args
parse_loop a [] = some a
parse_loop a (flag ∷ []) = none
parse_loop a (flag ∷ value ∷ rest) =
    if same flag (codes "--id")
    then parse_loop (record a { node_id = copy max_id value }) rest
    else (if same flag (codes "--port")
        then parse_loop (record a { port = atoi value }) rest
        else (if same flag (codes "--host")
            then parse_loop (record a { host = copy 256 value }) rest
            else (if same flag (codes "--data")
                then parse_loop (record a { data_dir = copy 256 value }) rest
                else none)))

unfoldable pub parse_args : List Text → Option Args
parse_args argv = elim (parse_loop default_args argv) [
  | none ↦ none
  | some a ↦ (if is_empty a.node_id || a.port == 0 then none else some a)
]

unfoldable pub make_raft_config : Args → NodeConfig
make_raft_config a = record {
  node_id = copy max_id a.node_id;
  peers = [];
  initial_members = [];
  learner = false;
  election_timeout_ms = 500;
  heartbeat_interval_ms = 100;
}
