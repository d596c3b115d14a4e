-- ===== src/Events.antt =====
-- The hub of internal/events/hub.go: the ring of the last events, and the subscribers' channels.
pub mod Ring
pub mod Channels
mod Examples
use senechal_gw.Prelude.{
  ℕ, zero, suc, ◌+◌, ◌%◌, String, Bool, true, false, not, ◌||◌, Option, none, some, List, [], ◌∷◌,
  ◌++◌, map, length, get_elem?, set, replicate, select, ltb, ◌==◌, if◌then◌else◌,
}

pub record Event : Type 0 where
  pub id : ℕ
  pub type : String
  pub at : ℕ
  pub payload : String

-- A channel with its buffered events, the next one first.
pub record Sub : Type 0 where
  pub id : ℕ
  pub buffer : List Event

-- The zero values of `ring` are there from the start; `subs` is a list with the newest last.
pub record Hub : Type 0 where
  pub next_id : ℕ
  pub ring : List Event
  pub start : ℕ
  pub size : ℕ
  pub subs : List Sub
  pub next_sub_id : ℕ

abbrev pub zero_event : Event
zero_event = record { id = 0; type = ""; at = 0; payload = "" }

abbrev pub ring_capacity : ℕ → ℕ
ring_capacity capacity = if 0 == capacity then 100 else capacity

-- NewHub; a capacity of 0 stands for 0 and below
unfoldable pub new_hub : ℕ → Hub
new_hub capacity = record {
  next_id = 0;
  ring = replicate (ring_capacity capacity) zero_event;
  start = 0;
  size = 0;
  subs = [];
  next_sub_id = 0;
}

-- pushLocked
unfoldable pub push_locked : Event → Hub → Hub
push_locked ev h =
    let capacity = length h.ring in
    if 0 == capacity
    then h
    else if ltb h.size capacity
    then record h { ring = set h.ring ((h.start + h.size) % capacity) ev; size = suc h.size }
    else record h { ring = set h.ring h.start ev; start = suc h.start % capacity }

abbrev pub channel_capacity : ℕ
channel_capacity = 128

-- The send that does not block: a full channel drops the event.
unfoldable pub offer : Event → Sub → Sub
offer ev s =
    if ltb (length s.buffer) channel_capacity then record s { buffer = s.buffer ++ ev ∷ [] } else s

-- The part of Publish under the lock.
unfoldable pub deliver : Event → Hub → Hub
unfolding push_locked offer
deliver ev h = record (push_locked ev h) { subs = map (offer ev) h.subs }

-- json.Marshal's text, or none where it fails; the outer none is a nil value.
abbrev pub payload_of : Option (Option String) → String
payload_of none = "{}"
payload_of (some none) = "{}"
payload_of (some (some text)) = text

-- Publish. The id is drawn before the lock is taken, so other events may come in between the two.
unfoldable pub draw : String → Option (Option String) → ℕ → Hub → Event × Hub
draw type value now h = (
  record { id = suc h.next_id; type = type; at = now; payload = payload_of value },
  record h { next_id = suc h.next_id },
)

unfoldable pub publish : String → Option (Option String) → ℕ → Hub → Hub
unfolding draw deliver
publish type value now h = let (ev, h') = draw type value now h in deliver ev h'

-- Subscribe, and the function that it returns
unfoldable pub subscribe : Hub → ℕ × Hub
subscribe h = (
  h.next_sub_id,
  record h {
    subs = h.subs ++ record { id = h.next_sub_id; buffer = [] } ∷ [];
    next_sub_id = suc h.next_sub_id;
  },
)

unfoldable pub cancel : ℕ → Hub → Hub
cancel id h = record h { subs = select (λ s. not (s.id == id)) h.subs }

abbrev pub is_since : ℕ → Event → Bool
is_since last_id ev = last_id == 0 || ltb last_id ev.id

unfoldable pub snapshot_from : ℕ → ℕ → ℕ → Hub → List Event
snapshot_from last_id zero i h = []
snapshot_from last_id (suc n) i h =
    let rest = snapshot_from last_id n (suc i) h in
    elim (get_elem? h.ring ((h.start + i) % length h.ring)) [
      | none ↦ rest
      | some ev ↦ if is_since last_id ev then ev ∷ rest else rest
    ]

-- SnapshotSince
unfoldable pub snapshot_since : ℕ → Hub → List Event
unfolding snapshot_from
snapshot_since last_id h = snapshot_from last_id h.size 0 h
