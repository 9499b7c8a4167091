-- ===== src/Kv.antt =====
-- The key-value application (c/src/raft_kv_app.c, c/include/raft/raft_kv_app.h). A state is the list
-- of its slots up to `count`; the slot of a pair that was deleted stays, with `used` false.
pub mod Lookup
use raft_rx.Prelude.{
  ℕ, zero, suc, ◌+◌, ◌-◌, Bool, true, false, not, ◌&&◌, ◌||◌, Option, none, some, List, [], ◌∷◌,
  ◌++◌, Text, codes, same, is_empty, if◌then◌else◌, ltb, leb, ◌==◌, length, take,
}
use raft_rx.Types.{Command, Application, max_key, max_value, copy}
use raft_rx.Storage.LogFile.{cut}

abbrev pub max_pairs : ℕ
max_pairs = 128

pub record Pair : Type 0 where
  pub key : Text
  pub value : Text
  pub used : Bool

-- `raft_kv_get`: an empty text if there is no such key.
pub get : List Pair → Text → Text
get [] key = []
get (p ∷ kv) key = if p.used && same p.key key then p.value else get kv key

unfoldable pub has_key : List Pair → Text → Bool
has_key [] key = false
has_key (p ∷ kv) key = p.used && same p.key key || has_key kv key

-- The loop of `set` over the slots, where the key is in use.
pub overwrite : List Pair → Text → Text → List Pair
overwrite [] key value = []
overwrite (p ∷ kv) key value =
    if p.used && same p.key key
    then record p { value = copy max_value value } ∷ kv
    else p ∷ overwrite kv key value

pub new_pair : Text → Text → Pair
new_pair key value = record { key = copy max_key key; value = copy max_value value; used = true }

pub set_pair : List Pair → Text → Text → List Pair
set_pair kv key value =
    if has_key kv key
    then overwrite kv key value
    else (if ltb (length kv) max_pairs then kv ++ new_pair key value ∷ [] else kv)

pub delete : List Pair → Text → List Pair
delete [] key = []
delete (p ∷ kv) key =
    if p.used && same p.key key then record p { used = false } ∷ kv else p ∷ delete kv key

unfoldable pub kv_apply : List Pair → Command → List Pair
kv_apply kv c =
    if same c.op (codes "set")
    then set_pair kv c.key c.value
    else (if same c.op (codes "del") then delete kv c.key else kv)

-- "%s=%s\n"
unfoldable pub line_of : Pair → Text
line_of p = p.key ++ b'=' ∷ (p.value ++ b'\n' ∷ [])

-- A line that does not fit with its NUL ends the loop, and is left out.
snapshot_from : ℕ → Text → List Pair → Text
snapshot_from size out [] = out
snapshot_from size out (p ∷ kv) =
    let skip = snapshot_from size out kv in
    let rest = snapshot_from size (out ++ line_of p) kv in
    if not p.used
    then skip
    else (if leb size (length out)
        then out
        else (if leb (size - length out) (length (line_of p)) then out else rest))

unfoldable pub kv_snapshot : List Pair → ℕ → Text
unfolding snapshot_from
kv_snapshot kv size = snapshot_from size [] kv

-- One round of `kv_restore_snapshot`: the pair, if it is taken, and the bytes after its newline;
-- `none` where the loop breaks.
restore_line : Text → Option (Option Pair × Text)
restore_line s = elim (cut b'=' s) [
  | none ↦ none
  | some (key, after_eq) ↦ (elim (cut b'\n' s) [
    | none ↦ none
    | some (line, rest) ↦
        let vlen = length line - length key - 1 in
        if leb (length line) (length key)
        then none
        else (if length key == 0 || (leb max_key (length key) || leb max_value vlen)
            then some (none, rest)
            else some (some (record { key = key; value = take vlen after_eq; used = true }), rest))
  ])
]

-- The loop; each round takes a byte at least, so the length of the text is fuel enough.
restore_from : ℕ → Text → List Pair → List Pair
restore_from zero s kv = kv
restore_from (suc fuel) s kv = elim (is_empty s || leb max_pairs (length kv)) [
  | true ↦ kv
  | false ↦ (elim (restore_line s) [
    | none ↦ kv
    | some (none, rest) ↦ restore_from fuel rest kv
    | some (some p, rest) ↦ restore_from fuel rest (kv ++ p ∷ [])
  ])
]

unfoldable pub kv_restore_snapshot : Text → List Pair
unfolding restore_line restore_from
kv_restore_snapshot s = restore_from (length s) s []

-- `raft_kv_make_application`
unfoldable pub kv_application : Application (List Pair)
kv_application = record {
  apply = some kv_apply;
  reload = some (λ _. []);
  snapshot = some kv_snapshot;
  restore_snapshot = some (λ _ s. kv_restore_snapshot s);
}
