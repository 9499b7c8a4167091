-- ===== src/Codec.antt =====
-- `encode_member_list` and `decode_member_list` (c/src/raft.c): member lists as the value of a log
-- command, names joined by commas.
use raft_rx.Prelude.{
  take_all, ℕ, ◌+◌, ◌-◌, ◌*◌, ◌≤◌, ◌<◌, ◌≡◌, ◌≢◌, Bool, true, false, List, [], ◌∷◌, ◌++◌, Text,
  is_empty, if◌then◌else◌, leb, ◌==◌, length, take, arith, refl, sym, length-append,
}
use mathlib.Core.List.{append-nil, append_assoc}
use raft_rx.Types.{max_id, max_nodes, max_value, copy}
use raft_rx.Members.{member_list_contains, collect}
use raft_rx.Members.Normalize.{AreFresh, AreFresh-same}
use raft_rx.Members.Names.{AllIds, copy_id, contains-append}

-- One round: `snprintf(out + used, out_size - used, "%s%s", i == 0 ? "" : ",", member)`.
encode_from : ℕ → Bool → List Text → Text → Text
encode_from size first [] out = out
encode_from size first (m ∷ ms) out =
    let piece = if first then m else b',' ∷ m in
    let room = size - length out in
    let rest = encode_from size false ms (out ++ piece) in
    if leb room (length piece) then out ++ take (room - 1) piece else rest

unfoldable pub encode_member_list : List Text → ℕ → Text
unfolding encode_from
encode_member_list members out_size =
    if out_size == 0 then [] else encode_from out_size true members []

-- strtok(…, ","): the parts between commas that are not empty, with the part read so far.
flush : Text → List Text → List Text
flush part parts = if is_empty part then parts else part ∷ parts

tokens_from : Text → Text → List Text
unfolding flush
tokens_from part [] = flush part []
tokens_from part (c ∷ s) = elim (c == b',') [
  | true ↦ flush part (tokens_from [] s)
  | false ↦ tokens_from (part ++ c ∷ []) s
]

-- The loop over the tokens is the first loop of `normalize_members`.
unfoldable pub decode_member_list : Text → ℕ → List Text
unfolding tokens_from
decode_member_list value capacity = collect capacity (tokens_from [] (copy max_value value)) []

-- Names as the codec wants them: not empty, and without a comma.
abbrev pub NoComma : Text → Type 0
NoComma [] = Unit
NoComma (c ∷ s) = (c ≢ b',') × NoComma s

abbrev pub AllNoComma : List Text → Type 0
AllNoComma [] = Unit
AllNoComma (m ∷ ms) = (is_empty m ≡ false) × NoComma m × AllNoComma ms

-- The text without a bound on its length.
join : Bool → List Text → Text
join first [] = []
join first (m ∷ ms) = (if first then m else b',' ∷ m) ++ join false ms

encode_from-join :
    (size : ℕ) (first : Bool) (ms : List Text) (out : Text)
    → length out + length (join first ms) < size
    → encode_from size first ms out ≡ out ++ join first ms
unfolding encode_from join
encode_from-join size first [] out h = sym (append-nil out)
encode_from-join size first (m ∷ ms) out h =
    let piece : Text = if first then m else b',' ∷ m in
    rw (← append_assoc out piece (join false ms)) (
      ground (
        arith,
        encode_from-join size false ms (out ++ piece),
        length-append out piece,
        length-append piece (join false ms),
      ))

tokens_from-append :
    (part m rest : Text) → NoComma m → tokens_from part (m ++ rest) ≡ tokens_from (part ++ m) rest
unfolding tokens_from
tokens_from-append part [] rest h = rw (append-nil part)
tokens_from-append part (c ∷ m) rest h =
    ground (arith, tokens_from-append (part ++ c ∷ []) m rest h.1, append_assoc part (c ∷ []) m)

tokens_from-join :
    (part : Text) (ms : List Text)
    → AllNoComma ms
    → tokens_from part (join false ms) ≡ flush part ms
unfolding tokens_from join flush
tokens_from-join part [] h = refl
tokens_from-join part (m ∷ ms) h =
    ground (arith, tokens_from-append [] m (join false ms) h.1, tokens_from-join m ms h.2)

cons-snoc :
    (m : Text) (out : List Text) (x : Text)
    → member_list_contains (m ∷ out) x ≡ member_list_contains (out ++ m ∷ []) x
unfolding member_list_contains
cons-snoc m out x = ground (arith, contains-append out (m ∷ []) x)

collect-fresh :
    (capacity : ℕ) (ms out : List Text)
    → AllIds ms
    → AreFresh out ms
    → length out + length ms ≤ capacity
    → collect capacity ms out ≡ out ++ ms
unfolding collect
collect-fresh capacity [] out a f h = sym (append-nil out)
collect-fresh capacity (m ∷ ms) out a f h =
    let later : AreFresh (out ++ m ∷ []) ms =
      AreFresh-same (m ∷ out) (out ++ m ∷ []) ms (cons-snoc m out) f.2 in
    ground (
      arith,
      copy_id m a.0,
      length-append out (m ∷ []),
      append_assoc out (m ∷ []) ms,
      collect-fresh capacity ms (out ++ m ∷ []) a.1 later,
    )

length-join-le : (ms : List Text) → AllIds ms → length (join false ms) ≤ max_id * length ms
unfolding join
length-join-le [] a = omega arith
length-join-le (m ∷ ms) a =
    omega (arith, length-append m (join false ms), length-join-le ms a.1, a.0)

-- Eight names and seven commas fill the value of a command exactly.
join_fits : (ms : List Text) → AllIds ms → length ms ≤ max_nodes → length (join true ms) < max_value
unfolding join
join_fits [] a h = omega arith
join_fits (m ∷ ms) a h = omega (arith, length-append m (join false ms), length-join-le ms a.1, a.0)

tokens_from-join-true : (ms : List Text) → AllNoComma ms → tokens_from [] (join true ms) ≡ ms
unfolding join flush tokens_from
tokens_from-join-true [] h = refl
tokens_from-join-true (m ∷ ms) h =
    ground (arith, tokens_from-append [] m (join false ms) h.1, tokens_from-join m ms h.2)

-- A list of at most eight distinct names of fewer than 16 bytes, not empty and without commas, is
-- encoded into a value and decoded again as it was.
pub decode-encode :
    (ms : List Text)
    → AllIds ms
    → AllNoComma ms
    → AreFresh [] ms
    → length ms ≤ max_nodes
    → decode_member_list (encode_member_list ms max_value) max_nodes ≡ ms
unfolding decode_member_list encode_member_list copy
decode-encode ms a c f h =
    let short = join_fits ms a h in
    rw
      (
        encode_from-join max_value true ms [] (omega (arith, short)),
        take_all (max_value - 1) (join true ms) (omega arith),
        tokens_from-join-true ms c,
      )
      (collect-fresh max_nodes ms [] a f (omega arith))
