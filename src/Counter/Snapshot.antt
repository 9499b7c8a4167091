-- ===== src/Counter/Snapshot.antt =====
-- The snapshot of the counter (c/examples/counter/src/main.c, `counter_snapshot` and
-- `counter_restore_snapshot`).
use raft_rx.Prelude.{
  ℕ, ◌^◌, ◌<◌, ◌≤◌, ◌≡◌, [], ◌∷◌, ◌++◌, length, take_all, arith, refl, length-append,
}
use raft_rx.Decimal.{print_int, atoi-print_int, length-print_int}
use raft_rx.Counter.{counter_snapshot, counter_restore_snapshot}

-- A value below 2^31, written as a snapshot to a buffer of at least 16 bytes, is restored exactly.
restore-snapshot :
    (v size : ℕ) → v < 2 ^ 31 → 16 ≤ size → counter_restore_snapshot (counter_snapshot v size) ≡ v
unfolding counter_restore_snapshot counter_snapshot
restore-snapshot v size small room =
    let text = print_int v ++ b'\n' ∷ [] in
    let short : length (print_int v) ≤ 10 = length-print_int 9 v (omega arith) in
    ground (
      arith,
      short,
      length-append (print_int v) (b'\n' ∷ []),
      take_all 31 text,
      atoi-print_int v (b'\n' ∷ []) refl,
    )
