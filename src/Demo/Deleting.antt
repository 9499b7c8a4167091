-- ===== src/Demo/Deleting.antt =====
-- The command "delete" of the demonstration, from the line to the store
-- (c/examples/demo_app/src/cli_fsm.c, `cmd_delete`; c/examples/demo_app/src/demo_kv_app.c,
-- `demo_apply`; c/src/raft_kv_app.c, `kv_apply`).
use raft_rx.Prelude.{
  ◌<◌, ◌≡◌, ◌∙◌, true, Option, List, [], ◌∷◌, ◌++◌, Text, codes, refl, length, arith, Text-discrete,
  ℕ_discrete,
}
use raft_rx.Types.{Command, max_queue, copy}
use raft_rx.Kv.{Pair, kv_apply}
use raft_rx.Members.{is_leader}
use raft_rx.Membership.Joining.{is_leader-is_leader_role}
use raft_rx.Lifecycle
use raft_rx.Tcp.{submit_command}
use raft_rx.Tcp.Frames.{Layout}
use raft_rx.Tcp.Sending.{Network, tcp_transport}
use raft_rx.Demo.{demo_apply}
use raft_rx.Demo.Line.{Demo, node_of, tcp_of, say, submit}
use raft_rx.Demo.Line.Commands.{plain_command, submit_or_forward, cmd_delete}

-- A store after commands, in their order.
unfoldable pub applied :
    {U : Type 0} → Option (U → Text → Text → U) → List Pair × U → List Command → List Pair × U
applied peer_set store [] = store
applied peer_set store (cmd ∷ cmds) = applied peer_set (demo_apply peer_set store cmd) cmds

module _ {U : Type 0} (peer_set : Option (U → Text → Text → U)) where
  applied-snoc :
      (cmds : List Command) (store : List Pair × U) (cmd : Command)
      → applied peer_set store (cmds ++ cmd ∷ [])
        ≡ demo_apply peer_set (applied peer_set store cmds) cmd
  unfolding applied
  applied-snoc [] store cmd = refl
  applied-snoc (d ∷ cmds) store cmd = applied-snoc cmds (demo_apply peer_set store d) cmd

  demo_apply-delete :
      (store : List Pair × U) (key : Text)
      → demo_apply peer_set store (plain_command (codes "delete") key []) ≡ store
  unfolding demo_apply kv_apply copy Text-discrete ℕ_discrete
  demo_apply-delete store key = refl

module _ {U W : Type 0} (l : Layout) (net : Network W) where
  submit-queued :
      (c : Demo U W) (cmd : Command)
      → is_leader (node_of c) ≡ true
      → length (tcp_of c).cmd_queue < max_queue
      → (tcp_of (submit l net c cmd).0).cmd_queue ≡ (tcp_of c).cmd_queue ++ cmd ∷ []
  unfolding submit Lifecycle.submit_command is_leader submit_command tcp_transport
  submit-queued c cmd leads room = ground (arith, leads, room)

  -- On a node that runs, is a member and leads, and whose queue of commands has room, the command
  -- line's "delete" puts one command with the op "delete" and the key at the end of the queue; and
  -- the queue has the same effect on any store as it had without that command: the key is not
  -- deleted.
  pub cmd_delete-keeps_store :
      (peer_set : Option (U → Text → Text → U)) (c : Demo U W) (key : Text) (store : List Pair × U)
      → is_leader (node_of c) ≡ true
      → length (tcp_of c).cmd_queue < max_queue
      → let queue = (tcp_of c).cmd_queue in
        let queue' = (tcp_of (cmd_delete l net c key)).cmd_queue in
        (queue' ≡ queue ++ plain_command (codes "delete") key [] ∷ [])
        × (applied peer_set store queue' ≡ applied peer_set store queue)
  unfolding cmd_delete submit_or_forward say
  cmd_delete-keeps_store peer_set c key store leads room =
      let cmd = plain_command (codes "delete") key [] in
      let queue = (tcp_of c).cmd_queue in
      let role = is_leader-is_leader_role (node_of c) leads in
      let queued = submit-queued c cmd leads room in
      rw (role, queued)
        (
          refl,
          applied-snoc peer_set queue store cmd
              ∙ demo_apply-delete peer_set (applied peer_set store queue) key,
        )
