-- ===== src/Mqtt/Posix/Session.antt =====
-- The connection of the POSIX layer (c/src/raft_mqtt_hal_posix.c, `posix_hal_connect` and
-- `posix_hal_disconnect`).
use raft_rx.Prelude.{◌≡◌, false, arith}
use raft_rx.Mqtt.{Config}
use raft_rx.Mqtt.Posix.{Posix, Client, connect, give_up, disconnect}

module _ {L : Type 0} (client : Client L) where
  -- From a context without a session and without a thread, whichever step of the connection fails:
  -- success is reported exactly if a session and a thread are left, else neither is left; and the
  -- ring is as it was.
  pub connect_settles :
      (p : Posix L) (cfg : Config)
      → p.has_ssl ≡ false
      → p.thread_started ≡ false
      → let (p', done) = connect client p cfg in
        (p'.has_ssl ≡ done) × (p'.thread_started ≡ done) × (p'.ring ≡ p.ring)
  unfolding connect give_up
  connect_settles p cfg a b = ground arith

  -- After `disconnect` there is neither a session nor a thread, and a second call does nothing.
  disconnect-disconnect :
      (p : Posix L)
      → let p' = disconnect client p in
        (p'.has_ssl ≡ false) × (p'.thread_started ≡ false) × (disconnect client p' ≡ p')
  unfolding disconnect
  disconnect-disconnect p = ground arith
