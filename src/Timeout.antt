-- ===== src/Timeout.antt =====
-- `node_next_election_timeout` (c/src/raft.c): the FNV-1a hash of the node's name, term and clock
-- spreads the timeouts. A `uint32_t` wraps; the clock is read by the caller.
use Prim.Native.Nat.{bit_xor}
use raft_rx.Prelude.{ℕ, ◌+◌, ◌*◌, ◌%◌, ◌≤◌, ◌<◌, [], ◌∷◌, Text, leb, if◌then◌else◌, arith}
use raft_rx.Types.{Node}

abbrev u32_mod : ℕ
u32_mod = 4294967296

-- h ^= b; h *= 16777619u;
pub fnv_step : ℕ → ℕ → ℕ
fnv_step h b = bit_xor h b * 16777619 % u32_mod

pub fnv_text : ℕ → Text → ℕ
fnv_text h [] = h
fnv_text h (c ∷ s) = fnv_text (fnv_step h c) s

pub timeout_hash : Text → ℕ → ℕ → ℕ
unfolding fnv_step fnv_text
timeout_hash id term now =
    fnv_step (fnv_step (fnv_text 2166136261 id) (term % u32_mod)) (now % u32_mod)

timeout_of : ℕ → Text → ℕ → ℕ → ℕ
unfolding timeout_hash
timeout_of base id term now = if leb base 1 then base else base + timeout_hash id term now % base

pub next_election_timeout : {S : Type 0} → Node S → ℕ → ℕ
unfolding timeout_of
next_election_timeout n now =
    timeout_of n.config.election_timeout_ms n.config.node_id n.current_term now

-- The timeout is at least the configured one, and less than its double if that is not 0.
pub next_election_timeout_bounds :
    {S : Type 0} (n : Node S) (now : ℕ)
    → (n.config.election_timeout_ms ≤ next_election_timeout n now)
      × (0 < n.config.election_timeout_ms
          → next_election_timeout n now < 2 * n.config.election_timeout_ms)
unfolding next_election_timeout
next_election_timeout_bounds n now = ground arith
