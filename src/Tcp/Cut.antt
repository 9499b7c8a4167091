-- ===== src/Tcp/Cut.antt =====
-- A connection that ends before the frame does (c/src/raft_tcp_transport.c, `tcp_listener_thread`).
use raft_rx.Prelude.{
  ℕ, ◌⊎◌, ◌-◌, ◌<◌, ◌≡◌, none, some, List, ◌++◌, length, take, drop, take-append_past, arith, ap,
  ◌∙◌, Option-cases, inl, inr, length-take, length-append, dec_lt,
}
use raft_rx.Types.{Message, Command}
use raft_rx.Tcp.Frames.{
  recv_from, JoinRequest, Layout, Stream, Struct, Received, recv_full, header_bytes, header_size,
  frame, receive_struct, receive, write_u32, type_raft, type_join, type_cmd,
}
use raft_rx.Tcp.{Tcp, serve, accept}
use raft_rx.Tcp.Wire.{recv_from-short, recv_from-exact, header_of-header_bytes}
use raft_rx.Tcp.Listener.{IsSendable, header_for}

module _ {A : Type 0} (s : Struct A) where
  -- Of the two calls of `recv_full`, one fails.
  read_cut :
      (type : ℕ) (a : A) (ready : List ℕ) (n : ℕ)
      → n < length (frame s type a)
      → IsSendable s a
      → (recv_full (record { bytes = take n (frame s type a); ready = ready }) header_size ≡ none)
        ⊎ ((rest : Stream) × (recv_full
                (record { bytes = take n (frame s type a); ready = ready })
                header_size
              ≡ some (header_bytes (header_for s type), rest))
            × (recv_full rest s.size ≡ none))
  unfolding frame recv_full header_bytes write_u32
  read_cut type a ready n cut ((fills, gives), fits) =
      let h = header_bytes (header_for s type) in
      let body = s.bytes a in
      let bytes = take n (h ++ body) in
      let total : n < length (h ++ body) = cut in
      elim (Option-cases (recv_from header_size bytes ready)) [
        | inl stopped ↦ inl stopped
        | inr ((bs, rest), read) ↦ (elim (dec_lt n header_size) [
          | yes early ↦
              inl
                (recv_from-short ready header_size bytes (omega (arith, length-take n (h ++ body))))
          | no late ↦
              let (taken, left) = recv_from-exact ready header_size bytes bs rest read in
              let past = take-append_past h body n (omega arith) in
              let short : rest.bytes ≡ take (n - header_size) body =
                left ∙ ap (drop header_size) past in
              inr (
                rest,
                read ∙ ap (λ b. some (b, rest)) (taken ∙ ap (take header_size) past),
                rw short (
                    recv_from-short rest.ready s.size (take (n - header_size) body) (
                      omega (
                        arith,
                        total,
                        fills,
                        length-append h body,
                        length-take (n - header_size) body,
                      ))),
              )
        ])
      ]

module _ (l : Layout) (ready : List ℕ) (n : ℕ) where
  receive-cut_message :
      (m : Message)
      → n < length (frame l.message type_raft m)
      → IsSendable l.message m
      → receive l (record { bytes = take n (frame l.message type_raft m); ready = ready })
        ≡ Received.refused
  unfolding receive receive_struct
  receive-cut_message m cut sendable = elim (read_cut l.message type_raft m ready n cut sendable) [
    | inl first ↦ ground (arith, first)
    | inr (rest, first, second) ↦ ground (
      arith,
      first,
      second,
      header_of-header_bytes (header_for l.message type_raft)
          (omega arith, omega arith, sendable.1),
    )
  ]

  receive-cut_join :
      (j : JoinRequest)
      → n < length (frame l.join type_join j)
      → IsSendable l.join j
      → receive l (record { bytes = take n (frame l.join type_join j); ready = ready })
        ≡ Received.refused
  unfolding receive receive_struct
  receive-cut_join j cut sendable = elim (read_cut l.join type_join j ready n cut sendable) [
    | inl first ↦ ground (arith, first)
    | inr (rest, first, second) ↦ ground (
      arith,
      first,
      second,
      header_of-header_bytes (header_for l.join type_join) (omega arith, omega arith, sendable.1),
    )
  ]

  receive-cut_command :
      (c : Command)
      → n < length (frame l.command type_cmd c)
      → IsSendable l.command c
      → receive l (record { bytes = take n (frame l.command type_cmd c); ready = ready })
        ≡ Received.refused
  unfolding receive receive_struct
  receive-cut_command c cut sendable = elim (read_cut l.command type_cmd c ready n cut sendable) [
    | inl first ↦ ground (arith, first)
    | inr (rest, first, second) ↦ ground (
      arith,
      first,
      second,
      header_of-header_bytes (header_for l.command type_cmd) (omega arith, omega arith, sendable.1),
    )
  ]

-- A connection that ends anywhere within the frame of a message, a join request or a command whose
-- struct can be sent changes nothing at the listener, whatever the calls of recv find.
pub serve-cut :
    (l : Layout) (t : Tcp) (ready : List ℕ) (m : Message) (j : JoinRequest) (c : Command)
    (a b d : ℕ)
    → IsSendable l.message m × IsSendable l.join j × IsSendable l.command c
    → (a < length (frame l.message type_raft m))
      × (b < length (frame l.join type_join j))
      × (d < length (frame l.command type_cmd c))
    → (serve l t (record { bytes = take a (frame l.message type_raft m); ready = ready }) ≡ t)
      × (serve l t (record { bytes = take b (frame l.join type_join j); ready = ready }) ≡ t)
      × (serve l t (record { bytes = take d (frame l.command type_cmd c); ready = ready }) ≡ t)
unfolding serve accept
serve-cut l t ready m j c a b d (sm, sj, sc) (cm, cj, cf) = (
  ground (arith, receive-cut_message l ready a m cm sm),
  ground (arith, receive-cut_join l ready b j cj sj),
  ground (arith, receive-cut_command l ready d c cf sc),
)
