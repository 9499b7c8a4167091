-- ===== src/Mqtt/Posix/Fifo.antt =====
-- The ring of the POSIX layer is a queue of `max_queue` packets (c/src/raft_mqtt_hal_posix.c).
use raft_rx.Prelude.{
  ℕ, zero, suc, ◌+◌, ◌-◌, ◌%◌, ◌≤◌, ◌<◌, ◌≡◌, ◌≢◌, ◌∙◌, inl, inr, none, some, List, [], ◌∷◌, ◌++◌,
  Option, if◌then◌else◌, true, false, ltb, ◌==◌, length, set, get_or, arith, refl, ap,
  get_or-set_self, get_or-set_ne, length-set, Bool-cases, sym,
}
use raft_rx.Types.{max_queue}
use raft_rx.Mqtt.{Packet}
use raft_rx.Mqtt.Posix.{Slot, Ring, no_slot, size_mod, cut_packet, push, view, pop}

-- The number of packets, as the counters wrap.
abbrev pub count_of : Ring → ℕ
count_of r = (r.tail + (size_mod - r.head)) % size_mod

-- The slots from a counter on.
unfoldable pub slots_from : List Slot → ℕ → ℕ → List Slot
slots_from slots start zero = []
slots_from slots start (suc count) =
    get_or slots (start % max_queue) no_slot ∷ slots_from slots ((start + 1) % size_mod) count

-- What waits in the ring, the oldest first.
pub waiting_of : Ring → List Slot
waiting_of r = slots_from r.slots r.head (count_of r)

pub record IsRing (r : Ring) : Type 0 where
  pub size : length r.slots ≡ max_queue
  pub head_low : r.head < size_mod
  pub tail_low : r.tail < size_mod
  pub room : count_of r ≤ max_queue

slots_from-set :
    (slots : List Slot) (start count i : ℕ) (s : Slot)
    → start < size_mod
    → i ≡ (start + count) % max_queue
    → count < max_queue
    → slots_from (set slots i s) start count ≡ slots_from slots start count
unfolding slots_from
slots_from-set slots start zero i s low e lt = refl
slots_from-set slots start (suc count) i s low e lt =
    let other : i ≢ start % max_queue = omega arith in
    let next : i ≡ ((start + 1) % size_mod + count) % max_queue = omega arith in
    ap (λ x. x ∷ slots_from (set slots i s) ((start + 1) % size_mod) count)
      (get_or-set_ne slots i (start % max_queue) s no_slot other)
    ∙ ap (λ xs. get_or slots (start % max_queue) no_slot ∷ xs)
        (slots_from-set slots ((start + 1) % size_mod) count i s (omega arith) next (omega arith))

slots_from_snoc :
    (slots : List Slot) (start count : ℕ)
    → start < size_mod
    → slots_from slots start (suc count)
      ≡ slots_from slots start count ++ get_or slots ((start + count) % max_queue) no_slot ∷ []
unfolding slots_from
slots_from_snoc slots start zero low =
    let here : start % max_queue ≡ (start + 0) % max_queue = omega arith in
    ap (λ (i : ℕ). get_or slots i no_slot ∷ []) here
slots_from_snoc slots start (suc count) low =
    let here : ((start + 1) % size_mod + count) % max_queue ≡ (start + suc count) % max_queue =
      omega arith in
    ap (λ xs. get_or slots (start % max_queue) no_slot ∷ xs)
      (slots_from_snoc slots ((start + 1) % size_mod) count (omega arith)
        ∙ ap
            (λ (i : ℕ).
              slots_from slots ((start + 1) % size_mod) count ++ get_or slots i no_slot ∷ [])
            here)

length-slots_from :
    (slots : List Slot) (start count : ℕ) → length (slots_from slots start count) ≡ count
unfolding slots_from
length-slots_from slots start zero = refl
length-slots_from slots start (suc count) =
    ap suc (length-slots_from slots ((start + 1) % size_mod) count)

module _ (capacity : ℕ) where
  pushed : Ring → Packet → Ring
  pushed r p = record r {
    slots = set r.slots (r.tail % max_queue) (cut_packet capacity p);
    tail = (r.tail + 1) % size_mod;
  }

  waiting_of-pushed :
      (r : Ring) (p : Packet)
      → IsRing r
      → count_of r < max_queue
      → IsRing (pushed r p) × (waiting_of (pushed r p) ≡ waiting_of r ++ cut_packet capacity p ∷ [])
  unfolding pushed waiting_of
  waiting_of-pushed r p v lt =
      let s = cut_packet capacity p in
      let i = r.tail % max_queue in
      let grown : count_of (pushed r p) ≡ suc (count_of r) =
        omega (arith, v.head_low, v.tail_low) in
      let last : i ≡ (r.head + count_of r) % max_queue = omega (arith, v.head_low, v.tail_low) in
      let slots = set r.slots i s in
      (
        record {
          size = length-set r.slots i s ∙ v.size;
          head_low = v.head_low;
          tail_low = omega arith;
          room = omega (arith, grown);
        },
        ap (slots_from slots r.head) grown
            ∙ slots_from_snoc slots r.head (count_of r) v.head_low
            ∙ ap (λ (k : ℕ). slots_from slots r.head (count_of r) ++ get_or slots k no_slot ∷ [])
                (sym last)
            ∙ ap (λ x. slots_from slots r.head (count_of r) ++ x ∷ [])
                (get_or-set_self r.slots i s no_slot (omega (arith, v.size)))
            ∙ ap (λ xs. xs ++ s ∷ [])
                (slots_from-set r.slots r.head (count_of r) i s v.head_low last lt),
      )

  -- The ring with its wrapping counters is a queue: a packet that comes is put behind those that
  -- wait, cut to the arrays of its slot, or dropped if 256 wait already; and the counters stay in
  -- order.
  pub waiting_of-push :
      (r : Ring) (p : Packet)
      → IsRing r
      → IsRing (push capacity r p)
        × (waiting_of (push capacity r p) ≡ (
            if ltb (length (waiting_of r)) max_queue
            then waiting_of r ++ cut_packet capacity p ∷ []
            else waiting_of r))
  unfolding push
  waiting_of-push r p v =
      let size : length (waiting_of r) ≡ count_of r =
        unfold waiting_of in (length-slots_from r.slots r.head (count_of r)) in
      elim (Bool-cases (ltb (count_of r) max_queue)) [
        | inl room ↦
            let spec : ltb (length (waiting_of r)) max_queue ≡ true =
              ap (λ (k : ℕ). ltb k max_queue) size ∙ room in
            rw (room, spec) (unfold pushed in (waiting_of-pushed r p v (ground arith)))
        | inr full ↦
            let spec : ltb (length (waiting_of r)) max_queue ≡ false =
              ap (λ (k : ℕ). ltb k max_queue) size ∙ full in
            rw (full, spec) (v, refl)
      ]

-- The oldest of a queue, as it is read, and the others.
abbrev pub dequeue : ℕ → ℕ → List Slot → Option Packet × List Slot
dequeue topic_max payload_max [] = (none, [])
dequeue topic_max payload_max (s ∷ rest) = (some (view topic_max payload_max s), rest)

-- A read of the ring gives the oldest packet that waits, cut to the caller's buffers, and leaves
-- the others; of an empty ring it gives nothing; and the counters stay in order.
pub waiting_of-pop :
    (topic_max payload_max : ℕ) (r : Ring)
    → IsRing r
    → IsRing (pop topic_max payload_max r).0
      × ((pop topic_max payload_max r).1 ≡ (dequeue topic_max payload_max (waiting_of r)).0)
      × (waiting_of (pop topic_max payload_max r).0
          ≡ (dequeue topic_max payload_max (waiting_of r)).1)
waiting_of-pop topic_max payload_max r v = elim (Bool-cases (r.head == r.tail)) [
  | inl empty ↦
      let nothing : count_of r ≡ 0 = ground (arith, v.head_low) in
      let p : pop topic_max payload_max r ≡ (r, none) = unfold pop in (rw empty refl) in
      let w : waiting_of r ≡ [] =
        unfold waiting_of slots_from in (ap (slots_from r.slots r.head) nothing) in
      rw (p, w) (v, refl, refl)
  | inr more ↦
      let left = count_of r - 1 in
      let next = (r.head + 1) % size_mod in
      let r' = record r { head = next } in
      let s = get_or r.slots (r.head % max_queue) no_slot in
      let ne : r.head ≢ r.tail = ground arith in
      let some_left : count_of r ≡ suc left = omega (arith, v.head_low, v.tail_low) in
      let fewer : count_of r' ≡ left = omega (arith, v.head_low, v.tail_low) in
      let p : pop topic_max payload_max r ≡ (r', some (view topic_max payload_max s)) =
        unfold pop in (rw more refl) in
      let w : waiting_of r ≡ s ∷ slots_from r.slots next left =
        unfold waiting_of slots_from in (ap (slots_from r.slots r.head) some_left) in
      let w' : waiting_of r' ≡ slots_from r.slots next left =
        unfold waiting_of in (ap (slots_from r.slots next) fewer) in
      let v' : IsRing r' = record {
        size = v.size;
        head_low = omega arith;
        tail_low = v.tail_low;
        room = omega (arith, fewer, v.room);
      } in
      rw (p, w) (v', refl, w')
]
