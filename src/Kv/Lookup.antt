-- ===== src/Kv/Lookup.antt =====
-- The slots as a map from keys to values (c/src/raft_kv_app.c, `kv_apply` and `raft_kv_get`).
use raft_rx.Prelude.{
  take_all, ◌-◌, ◌<◌, ◌≡◌, refl, true, false, ◌&&◌, List, [], ◌∷◌, ◌++◌, Text, same, if◌then◌else◌,
  length, arith, codes, Bool-cases, inl, inr, ltb, ◌∙◌, ◌||◌,
}
use raft_rx.Types.{max_key, max_value, copy, Command}
use raft_rx.Kv.{Pair, max_pairs, get, has_key, overwrite, new_pair, set_pair, delete, kv_apply}

-- No key is in use twice.
abbrev pub IsUnique : List Pair → Type 0
IsUnique [] = Unit
IsUnique (p ∷ kv) = (p.used ≡ true → has_key kv p.key ≡ false) × IsUnique kv

get-unused : (kv : List Pair) (k : Text) → has_key kv k ≡ false → get kv k ≡ []
unfolding get has_key
get-unused [] k h = refl
get-unused (p ∷ kv) k h = ground (arith, get-unused kv k)

get-overwrite :
    (kv : List Pair) (key value k : Text)
    → has_key kv key ≡ true
    → get (overwrite kv key value) k ≡ (if same k key then copy max_value value else get kv k)
unfolding get has_key overwrite
get-overwrite [] key value k h = cc
get-overwrite (p ∷ kv) key value k h = ground (arith, get-overwrite kv key value k)

get-append :
    (kv : List Pair) (p : Pair) (k : Text)
    → get (kv ++ p ∷ []) k
      ≡ (if has_key kv k then get kv k else (if p.used && same p.key k then p.value else []))
unfolding get has_key
get-append [] p k = refl
get-append (q ∷ kv) p k = ground (arith, get-append kv p k)

-- The key fits a char[64] and the value a char[128].
abbrev pub Fits : Text → Text → Type 0
Fits key value = (length key < max_key) × (length value < max_value)

-- A slot is free, or the key has one.
abbrev pub HasRoom : List Pair → Text → Type 0
HasRoom kv key = (has_key kv key ≡ false → length kv < max_pairs)

get-set_pair :
    (kv : List Pair) (key value k : Text)
    → Fits key value
    → HasRoom kv key
    → get (set_pair kv key value) k ≡ (if same k key then value else get kv k)
unfolding set_pair new_pair copy
get-set_pair kv key value k f room = ground (
  arith,
  take_all (max_key - 1) key,
  take_all (max_value - 1) value,
  get-overwrite kv key value k,
  get-append kv (new_pair key value) k,
  get-unused kv k,
)

get-delete :
    (kv : List Pair) (key k : Text)
    → IsUnique kv
    → get (delete kv key) k ≡ (if same k key then [] else get kv k)
unfolding get has_key delete
get-delete [] key k u = ground arith
get-delete (p ∷ kv) key k u = ground (arith, get-delete kv key k u.1, get-unused kv k)

-- For slots that repeat no key, a key and a value that fit, and a slot that is free or in use for
-- the key: after a "set" the key has the value, after a "del" it has none, and no other key
-- changes.
pub get-kv_apply :
    (kv : List Pair) (c : Command) (k : Text)
    → IsUnique kv
    → Fits c.key c.value
    → HasRoom kv c.key
    → get (kv_apply kv c) k ≡ (
        if same k c.key
        then (if same c.op (codes "set")
            then c.value
            else (if same c.op (codes "del") then [] else get kv k))
        else get kv k)
unfolding kv_apply
get-kv_apply kv c k u f room =
    ground (arith, get-set_pair kv c.key c.value k f room, get-delete kv c.key k u)

has_key-overwrite :
    (kv : List Pair) (key value k : Text) → has_key (overwrite kv key value) k ≡ has_key kv k
unfolding has_key overwrite
has_key-overwrite [] key value k = refl
has_key-overwrite (p ∷ kv) key value k = ground (arith, has_key-overwrite kv key value k)

overwrite-IsUnique :
    (kv : List Pair) (key value : Text) → IsUnique kv → IsUnique (overwrite kv key value)
unfolding overwrite
overwrite-IsUnique [] key value u = tt
overwrite-IsUnique (p ∷ kv) key value u = elim (Bool-cases (p.used && same p.key key)) [
  | inl here ↦ rw here u
  | inr other ↦
      rw other
        (λ h. has_key-overwrite kv key value p.key ∙ u.0 h, overwrite-IsUnique kv key value u.1)
]

has_key-append :
    (kv : List Pair) (p : Pair) (k : Text)
    → has_key (kv ++ p ∷ []) k ≡ (has_key kv k || p.used && same p.key k)
unfolding has_key
has_key-append [] p k = ground arith
has_key-append (q ∷ kv) p k = ground (arith, has_key-append kv p k)

append-IsUnique :
    (kv : List Pair) (p : Pair) → has_key kv p.key ≡ false → IsUnique kv → IsUnique (kv ++ p ∷ [])
unfolding has_key
append-IsUnique [] p h u = (λ _. refl, tt)
append-IsUnique (q ∷ kv) p h u = (
  λ used. ground (arith, has_key-append kv p q.key, u.0 used),
  append-IsUnique kv p (ground arith) u.1,
)

has_key-delete :
    (kv : List Pair) (key k : Text) → has_key kv k ≡ false → has_key (delete kv key) k ≡ false
unfolding has_key delete
has_key-delete [] key k h = refl
has_key-delete (p ∷ kv) key k h = ground (arith, has_key-delete kv key k)

delete-IsUnique : (kv : List Pair) (key : Text) → IsUnique kv → IsUnique (delete kv key)
unfolding delete
delete-IsUnique [] key u = tt
delete-IsUnique (p ∷ kv) key u = elim (Bool-cases (p.used && same p.key key)) [
  | inl here ↦ rw here (λ h. absurd (ground arith), u.1)
  | inr other ↦ rw other (λ h. has_key-delete kv key p.key (u.0 h), delete-IsUnique kv key u.1)
]

-- A command whose key fits its slot makes no key occur twice, if none did before.
kv_apply-IsUnique :
    (kv : List Pair) (c : Command) → length c.key < max_key → IsUnique kv → IsUnique (kv_apply kv c)
unfolding kv_apply set_pair new_pair copy
kv_apply-IsUnique kv c f u = elim (Bool-cases (same c.op (codes "set"))) [
  | inr other ↦ rw other (ground (arith, delete-IsUnique kv c.key u, u))
  | inl is_set ↦ elim (Bool-cases (has_key kv c.key)) [
    | inl old ↦ rw (is_set, old) (overwrite-IsUnique kv c.key c.value u)
    | inr new ↦ elim (Bool-cases (ltb (length kv) max_pairs)) [
      | inr full ↦ rw (is_set, new, full) u
      | inl free ↦
          rw (is_set, new, free, take_all (max_key - 1) c.key (omega arith))
            (append-IsUnique kv _ new u)
    ]
  ]
]
