-- ===== src/Outbox.antt =====
-- `node_queue_message` (c/src/raft.c): a message for which the outbox has no room is dropped.
use raft_rx.Prelude.{arith, ◌≡◌, ◌++◌, [], ◌∷◌, if◌then◌else◌, ltb, length}
use raft_rx.Types.{Node, Message, max_queue}

unfoldable pub queue_message : {S : Type 0} → Node S → Message → Node S
queue_message n message =
    if ltb (length n.outbox) max_queue then record n { outbox = n.outbox ++ message ∷ [] } else n

-- Only the outbox changes.
pub queue_message-frame :
    {S : Type 0} (n : Node S) (m : Message)
    → queue_message n m ≡ record n { outbox = (queue_message n m).outbox }
unfolding queue_message
queue_message-frame n m = ground arith
