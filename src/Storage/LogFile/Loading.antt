-- ===== src/Storage/LogFile/Loading.antt =====
-- The loading of the log that was written to log.txt (c/src/raft_storage.c).
use raft_rx.Prelude.{
  ℕ, zero, suc, ◌+◌, ◌≤◌, ◌<◌, ◌≡◌, ◌∙◌, true, false, List, [], ◌∷◌, leb, ltb, arith, refl, length,
  get_or, set, length-set, get_or-set_self, get_or-set_ne, ap,
}
use raft_rx.Types.{LogEntry, no_entry, max_log}
use raft_rx.Storage.MetaFile.{lines_of}
use raft_rx.Storage.LogFile.{write_slots, load_entry, load_lines}
use raft_rx.Storage.LogFile.Entries.{IsPrintable, read-write_entry, lines_of-write_entry}

-- What loading makes of the slots: the first `count` entries of the log stand from `pos` on.
pub record Loaded (log slots : List LogEntry) (pos count : ℕ) (r : List LogEntry × ℕ) : Type 0 where
  pub total : r.1 ≡ pos + count
  pub size : length r.0 ≡ max_log
  pub before : (i : ℕ) → i < pos → get_or r.0 i no_entry ≡ get_or slots i no_entry
  pub entries : (i : ℕ) → i < count → get_or r.0 (pos + i) no_entry ≡ get_or log i no_entry

-- Of each of the first entries.
abbrev pub OfFirst : (LogEntry → Type 0) → ℕ → List LogEntry → Type 0
OfFirst P count log = (i : ℕ) → i < count → P (get_or log i no_entry)

next_entry :
    (e : LogEntry) (log slots : List LogEntry) (pos count : ℕ) (r : List LogEntry × ℕ) (i : ℕ)
    → length slots ≡ max_log
    → pos < max_log
    → Loaded log (set slots pos e) (pos + 1) count r
    → i < suc count
    → get_or r.0 (pos + i) no_entry ≡ get_or (e ∷ log) i no_entry
next_entry e log slots pos count r zero full free l lt =
    let at : pos + 0 ≡ pos = omega arith in
    ap (λ (k : ℕ). get_or r.0 k no_entry) at
    ∙ l.before pos (omega arith)
    ∙ get_or-set_self slots pos e no_entry (omega arith)
next_entry e log slots pos count r (suc i) full free l lt =
    let at : pos + suc i ≡ pos + 1 + i = omega arith in
    ap (λ (k : ℕ). get_or r.0 k no_entry) at ∙ l.entries i (omega arith)

Loaded-suc :
    (e : LogEntry) (log slots : List LogEntry) (pos count : ℕ) (r : List LogEntry × ℕ)
    → length slots ≡ max_log
    → pos < max_log
    → Loaded log (set slots pos e) (pos + 1) count r
    → Loaded (e ∷ log) slots pos (suc count) r
Loaded-suc e log slots pos count r full free l = record {
  total = omega (arith, l.total);
  size = l.size;
  before = λ i lt. l.before i (omega arith) ∙ get_or-set_ne slots pos i e no_entry (omega arith);
  entries = λ i lt. next_entry e log slots pos count r i full free l lt;
}

-- The log that was written is loaded, each entry in its slot.
pub load-write_slots :
    (snapshot pos count : ℕ) (slots log : List LogEntry)
    → count ≤ length log
    → length slots ≡ max_log
    → pos + count ≤ max_log
    → OfFirst IsPrintable count log
    → OfFirst (λ e. snapshot < e.index) count log
    → Loaded log slots pos count
        (load_lines snapshot slots pos (lines_of 512 (write_slots count log)))
unfolding write_slots load_lines load_entry lines_of
load-write_slots snapshot pos zero slots log le full room ps above = record {
  total = omega arith;
  size = full;
  before = λ i lt. refl;
  entries = λ i lt. absurd (omega arith);
}
load-write_slots snapshot pos (suc count) slots [] le full room ps above = absurd (omega arith)
load-write_slots snapshot pos (suc count) slots (e ∷ log) le full room ps above =
    let p = ps 0 (omega arith) in
    let h = above 0 (omega arith) in
    let ih =
      load-write_slots snapshot (pos + 1) count (set slots pos e) log (omega arith)
        (length-set slots pos e ∙ full) (omega arith) (λ i lt. ps (suc i) (omega arith))
        (λ i lt. above (suc i) (omega arith)) in
    let kept : leb e.index snapshot ≡ false = ground arith in
    let free : ltb pos max_log ≡ true = ground arith in
    rw
      (
        lines_of-write_entry e (write_slots count log) p,
        load_lines,
        free,
        read-write_entry e p,
        kept,
      )
      (Loaded-suc e log slots pos count _ full (omega arith) ih)
