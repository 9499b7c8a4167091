-- ===== src/Tcp/Listener.antt =====
-- The listener against what the other side sends (c/src/raft_tcp_transport.c: `tcp_listener_thread`,
-- `tcp_send_join`, `tcp_send`, `raft_tcp_transport_forward_cmd`).
use raft_rx.Prelude.{
  ℕ, ◌+◌, ◌^◌, ◌≤◌, ◌<◌, ◌≡◌, true, false, some, List, ◌++◌, length, drop, arith, refl,
  length-append, take_all, Bool, Text, ◌∷◌, [],
}
use raft_rx.Types.{Message, Command, max_queue, max_nodes}
use raft_rx.Tcp.Frames.{
  JoinRequest, Layout, Stream, Struct, IsStored, Received, recv_full, Header, header_bytes,
  header_size, frame, receive_struct, receive, write_u32, type_raft, type_join, type_cmd, tcp_magic,
}
use raft_rx.Tcp.{Tcp, serve, accept, push}
use raft_rx.Tcp.Peers.{find_peer}
use raft_rx.Tcp.Sending.{Link, Network, send, send_join, forward_cmd}
use raft_rx.Tcp.Wire.{IsFlowing, recv_from-flows, header_of-header_bytes, length-header_bytes}

-- The size of a struct fits in `size` of the header.
abbrev pub IsSendable : {A : Type 0} → Struct A → A → Type 0
IsSendable s a = IsStored s a × (s.size < 2 ^ 32)

module _ {A : Type 0} (s : Struct A) where
  abbrev pub header_for : ℕ → Header
  header_for type = record { magic = tcp_magic; type = type; size = s.size }

  -- The two calls of `recv_full` on a frame.
  read_frame :
      (type : ℕ) (a : A) (ready : List ℕ)
      → IsSendable s a
      → type < 2 ^ 32
      → IsFlowing ready
      → header_size + s.size ≤ length ready
      → (rest : Stream) × (end : Stream) × (recv_full
            (record { bytes = frame s type a; ready = ready })
            header_size
          ≡ some (header_bytes (header_for type), rest))
        × (recv_full rest s.size ≡ some (s.bytes a, end))
  unfolding frame recv_full header_bytes write_u32
  read_frame type a ready ((fills, gives), fits) t f room =
      let h = header_bytes (header_for type) in
      let body = s.bytes a in
      let (left, read, flows, more) =
        recv_from-flows ready header_size (h ++ body) f (omega (arith, room))
          (omega (arith, length-append h body, length-header_bytes (header_for type))) in
      let (left2, read2, _, _) =
        recv_from-flows left s.size body flows (omega (arith, room, more)) (omega (arith, fills)) in
      (
        record { bytes = body; ready = left },
        record { bytes = drop s.size body; ready = left2 },
        read,
        ground (arith, read2, take_all s.size body (omega (arith, fills))),
      )

  receive_struct-frame :
      (wrap : A → Received) (a : A) (rest end : Stream)
      → IsSendable s a
      → recv_full rest s.size ≡ some (s.bytes a, end)
      → receive_struct s wrap s.size rest ≡ wrap a
  unfolding receive_struct
  receive_struct-frame wrap a rest end ((fills, gives), fits) read = ground (arith, read, gives)

module _ (l : Layout) (ready : List ℕ) (f : IsFlowing ready) where
  receive-message :
      (m : Message)
      → IsSendable l.message m
      → header_size + l.message.size ≤ length ready
      → receive l (record { bytes = frame l.message type_raft m; ready = ready })
        ≡ Received.message m
  unfolding receive
  receive-message m sendable room =
      let (rest, end, first, second) =
        read_frame l.message type_raft m ready sendable (omega arith) f room in
      ground (
        arith,
        first,
        header_of-header_bytes (header_for l.message type_raft)
            (omega arith, omega arith, sendable.1),
        receive_struct-frame l.message Received.message m rest end sendable second,
      )

  receive-join :
      (j : JoinRequest)
      → IsSendable l.join j
      → header_size + l.join.size ≤ length ready
      → receive l (record { bytes = frame l.join type_join j; ready = ready }) ≡ Received.join j
  unfolding receive
  receive-join j sendable room =
      let (rest, end, first, second) =
        read_frame l.join type_join j ready sendable (omega arith) f room in
      ground (
        arith,
        first,
        header_of-header_bytes (header_for l.join type_join) (omega arith, omega arith, sendable.1),
        receive_struct-frame l.join Received.join j rest end sendable second,
      )

  receive-command :
      (c : Command)
      → IsSendable l.command c
      → header_size + l.command.size ≤ length ready
      → receive l (record { bytes = frame l.command type_cmd c; ready = ready })
        ≡ Received.command c
  unfolding receive
  receive-command c sendable room =
      let (rest, end, first, second) =
        read_frame l.command type_cmd c ready sendable (omega arith) f room in
      ground (
        arith,
        first,
        header_of-header_bytes (header_for l.command type_cmd)
            (omega arith, omega arith, sendable.1),
        receive_struct-frame l.command Received.command c rest end sendable second,
      )

-- The listener runs, takes messages, and has room for one more of each kind.
abbrev pub HasRoom : Tcp → Type 0
HasRoom t =
    (t.shutdown ≡ false)
    × (t.enabled ≡ true)
    × (length t.in_queue < max_queue)
    × (length t.join_queue < max_nodes)
    × (length t.fwd_cmd_queue < max_queue)

-- Calls of recv enough for every kind of frame.
abbrev pub IsEnough : Layout → List ℕ → Type 0
IsEnough l ready =
    (header_size + l.message.size ≤ length ready)
    × (header_size + l.join.size ≤ length ready)
    × (header_size + l.command.size ≤ length ready)

-- The bytes that an operation gives the network for an address.
abbrev pub Delivers : {W : Type 0} → Network W → Link W → Text → ℕ → List ℕ → Link W × Bool → Type 0
Delivers net k host port bytes after =
    let (w, done) = net.deliver k.wire host port bytes in after ≡ (record k { wire = w }, done)

module _ {W : Type 0} (l : Layout) (net : Network W) (k : Link W) (host : Text) (port : ℕ) where
  -- A transport that is enabled and has an address for the target of a message gives the network
  -- some bytes for that address, and so do a join request and a forwarded command for an address.
  -- If the struct's bytes fill its size of less than 2^32 and give the value back, a listener that
  -- runs, is enabled and has room, to which those bytes come in any pieces, each call of recv
  -- finding at least one byte and the calls being enough, puts exactly that message, request or
  -- command at the end of its queue and changes nothing else.
  pub sends_arrive :
      (t : Tcp) (ready : List ℕ) (m : Message) (j : JoinRequest) (c : Command)
      → (k.tcp.enabled ≡ true) × (find_peer k.tcp.peers m.target ≡ some (host, port))
      → IsSendable l.message m × IsSendable l.join j × IsSendable l.command c
      → IsFlowing ready
      → IsEnough l ready
      → HasRoom t
      → ((bytes : List ℕ) × Delivers net k host port bytes (send l net k m)
          × (serve l t (record { bytes = bytes; ready = ready })
              ≡ record t { in_queue = t.in_queue ++ m ∷ [] }))
        × ((bytes : List ℕ) × Delivers net k host port bytes (send_join l net k host port j)
            × (serve l t (record { bytes = bytes; ready = ready })
                ≡ record t { join_queue = t.join_queue ++ j ∷ [] }))
        × ((bytes : List ℕ) × Delivers net k host port bytes (forward_cmd l net k host port c)
            × (serve l t (record { bytes = bytes; ready = ready })
                ≡ record t { fwd_cmd_queue = t.fwd_cmd_queue ++ c ∷ [] }))
  unfolding send send_join forward_cmd serve accept push
  sends_arrive t ready m j c (on, found) (sm, sj, sc) f (em, ej, ec) (up, takes, rm, rj, rc) = (
    (
      frame l.message type_raft m,
      ground (arith, found, on),
      ground (arith, receive-message l ready f m sm em),
    ),
    (frame l.join type_join j, refl, ground (arith, receive-join l ready f j sj ej)),
    (frame l.command type_cmd c, refl, ground (arith, receive-command l ready f c sc ec)),
  )
