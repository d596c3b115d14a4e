-- ===== src/Events/Ring.antt =====
-- SnapshotSince of internal/events/hub.go against the list of all events delivered.
use senechal_gw.Prelude.{
  ℕ, zero, suc, ◌+◌, ◌-◌, ◌%◌, ◌≤◌, ◌<◌, ◌≡◌, refl, sym, ap, ◌∙◌, subst, inl, inr, false, some,
  List, [], ◌∷◌, ◌++◌, length, length-append, append_nil, append_assoc, get_elem?, set, select,
  drop, arith, ltb, ◌==◌, Bool-cases, if◌then◌else◌,
}
use native.Mathlib.Nat.{mod-eq_of_lt, mod-eq-sub-mod, mod-lt}
use senechal_gw.Prelude.Places.{
  length-set, get-set, get-set_other, get-append_left, get-append_last, drop-get, get-inside,
  drop-all, length-replicate,
}
use senechal_gw.Events.{
  Event, Hub, zero_event, ring_capacity, new_hub, push_locked, deliver, is_since, snapshot_from,
  snapshot_since,
}

-- The events in the order in which they were delivered.
unfoldable pub deliver_all : List Event → Hub → Hub
deliver_all [] h = h
deliver_all (ev ∷ evs) h = deliver_all evs (deliver ev h)

-- An index that has gone round the ring at most once.
wrap : (x c : ℕ) → 0 < c → x < c + c → x % c ≡ (if ltb x c then x else x - c)
wrap x c p l = elim (Bool-cases (ltb x c)) [
  | inl t ↦ rw t (mod-eq_of_lt (ground (arith, t)))
  | inr t ↦ rw t (mod-eq-sub-mod (ground (arith, t)) ∙ mod-eq_of_lt (ground (arith, t, l)))
]

-- The ring holds the last events: as many as it has room for.
record Holds (evs : List Event) (h : Hub) : Type 0 where
  room : 0 < length h.ring
  inside : h.start < length h.ring
  filled : h.size ≡ (if ltb (length evs) (length h.ring) then length evs else length h.ring)
  held :
      (k : ℕ)
      → k < h.size
      → get_elem? h.ring ((h.start + k) % length h.ring) ≡ get_elem? evs (length evs - h.size + k)

push-room :
    (evs : List Event) (ev : Event) (h : Hub)
    → Holds evs h
    → h.size < length h.ring
    → (k : ℕ) → k < suc h.size
    → get_elem? (set h.ring ((h.start + h.size) % length h.ring) ev) ((h.start + k) % length h.ring)
      ≡ get_elem? (evs ++ ev ∷ []) k
push-room evs ev h v l k q =
    let n : h.size ≡ length evs = ground (arith, v.filled, l) in
    let w = wrap (h.start + h.size) (length h.ring) v.room (omega (arith, v.inside, l)) in
    let w' = wrap (h.start + k) (length h.ring) v.room (omega (arith, v.inside, l, q)) in
    elim (Bool-cases (k == h.size)) [
      | inl e ↦
          let s : h.size ≡ k = ground (arith, e) in
          subst
            (λ k.
              get_elem? (set h.ring ((h.start + h.size) % length h.ring) ev)
                ((h.start + k) % length h.ring)
              ≡ get_elem? (evs ++ ev ∷ []) k)
            s
            (get-set h.ring _ ev (mod-lt (h.start + h.size) v.room)
              ∙ sym (rw n (get-append_last evs ev)))
      | inr e ↦
          let b : k < h.size = ground (arith, e, q) in
          get-set_other h.ring _ _ ev (λ d. ground (arith, w, w', d, b, l, v.inside))
          ∙ v.held k b
          ∙ ap (get_elem? evs) (omega (arith, n))
          ∙ sym (get-append_left evs (ev ∷ []) k (omega (arith, n, b)))
    ]

push-full :
    (evs : List Event) (ev : Event) (h : Hub)
    → Holds evs h
    → length h.ring ≤ h.size
    → (k : ℕ) → k < h.size
    → get_elem? (set h.ring h.start ev) ((suc h.start % length h.ring + k) % length h.ring)
      ≡ get_elem? (evs ++ ev ∷ []) (suc (length evs) - h.size + k)
push-full evs ev h v l k q =
    let n : (h.size ≡ length h.ring) × (length h.ring ≤ length evs) = ground (arith, v.filled, l) in
    let w0 = wrap (suc h.start) (length h.ring) v.room (omega (arith, v.inside, v.room)) in
    let w1 =
      wrap (suc h.start % length h.ring + k) (length h.ring) v.room
        (ground (arith, w0, v.inside, n, q)) in
    let w2 = wrap (h.start + suc k) (length h.ring) v.room (ground (arith, v.inside, n, q)) in
    elim (Bool-cases (suc k == h.size)) [
      | inl e ↦
          let s : (suc h.start % length h.ring + k) % length h.ring ≡ h.start =
            ground (arith, w0, w1, e, v.inside, n) in
          let z : suc (length evs) - h.size + k ≡ length evs = ground (arith, e, n) in
          rw (s, z) (get-set h.ring h.start ev v.inside ∙ sym (get-append_last evs ev))
      | inr e ↦
          let b : suc k < h.size = ground (arith, e, q) in
          let s : (suc h.start % length h.ring + k) % length h.ring
              ≡ (h.start + suc k) % length h.ring =
            ground (arith, w0, w1, w2, b, v.inside, n) in
          let z : suc (length evs) - h.size + k ≡ length evs - h.size + suc k =
            ground (arith, b, n) in
          rw (s, z)
            (get-set_other h.ring _ _ ev (λ d. ground (arith, w2, d, b, n, v.inside))
              ∙ v.held (suc k) b
              ∙ sym (get-append_left evs (ev ∷ []) _ (ground (arith, n, b))))
    ]

push-Holds :
    (evs : List Event) (ev : Event) (h : Hub)
    → Holds evs h
    → Holds (evs ++ ev ∷ []) (push_locked ev h)
unfolding push_locked
push-Holds evs ev h v =
    let z : (0 == length h.ring) ≡ false = ground (arith, v.room) in
    let a = length-append evs (ev ∷ []) in
    elim (Bool-cases (ltb h.size (length h.ring))) [
      | inl t ↦
          let l : h.size < length h.ring = ground (arith, t) in
          let r = length-set h.ring ((h.start + h.size) % length h.ring) ev in
          rw (z, t)
            (record {
              room = rw r v.room;
              inside = rw r v.inside;
              filled = rw (r, a) (ground (arith, v.filled, l));
              held = λ k q.
                  rw (r, a)
                    (push-room evs ev h v l k q
                      ∙ ap (get_elem? (evs ++ ev ∷ [])) (ground (arith, v.filled, l)));
            })
      | inr t ↦
          let l : length h.ring ≤ h.size = ground (arith, t) in
          let r = length-set h.ring h.start ev in
          rw (z, t)
            (record {
              room = rw r v.room;
              inside = rw r (mod-lt (suc h.start) v.room);
              filled = rw (r, a) (ground (arith, v.filled, l));
              held = λ k q.
                  rw (r, a)
                    (push-full evs ev h v l k q ∙ ap (get_elem? (evs ++ ev ∷ [])) (omega arith));
            })
    ]

collects :
    (last_id : ℕ) (evs : List Event) (h : Hub) (n i m : ℕ)
    → ((k : ℕ)
        → k < n
        → get_elem? h.ring ((h.start + (i + k)) % length h.ring) ≡ get_elem? evs (m + k))
    → m + n ≡ length evs
    → snapshot_from last_id n i h ≡ select (is_since last_id) (drop m evs)
unfolding snapshot_from select
collects last_id evs h zero i m f e = rw (drop-all m evs (omega (arith, e))) refl
collects last_id evs h (suc n) i m f e =
    let (x, g) = get-inside evs m (omega (arith, e)) in
    let r =
      collects last_id evs h n (suc i) (suc m)
        (λ k q.
          ap (λ z. get_elem? h.ring ((h.start + z) % length h.ring)) (omega arith)
          ∙ f (suc k) (omega (arith, q))
          ∙ ap (get_elem? evs) (omega arith))
        (omega (arith, e)) in
    let c : get_elem? h.ring ((h.start + i) % length h.ring) ≡ some x =
      ap (λ z. get_elem? h.ring ((h.start + z) % length h.ring)) (omega arith)
      ∙ f zero (omega arith)
      ∙ ap (get_elem? evs) (omega arith)
      ∙ g in
    ground (arith, c, drop-get m evs g, r)

deliver-Holds :
    (evs : List Event) (ev : Event) (h : Hub) → Holds evs h → Holds (evs ++ ev ∷ []) (deliver ev h)
unfolding deliver
deliver-Holds evs ev h v =
    let w = push-Holds evs ev h v in
    record { room = w.room; inside = w.inside; filled = w.filled; held = w.held }

deliver_all-Holds :
    (before evs : List Event) (h : Hub) → Holds before h → Holds (before ++ evs) (deliver_all evs h)
unfolding deliver_all
deliver_all-Holds before [] h v = subst (λ x. Holds x h) (sym (append_nil before)) v
deliver_all-Holds before (ev ∷ evs) h v =
    subst (λ x. Holds x (deliver_all evs (deliver ev h))) (append_assoc before (ev ∷ []) evs)
      (deliver_all-Holds (before ++ ev ∷ []) evs (deliver ev h) (deliver-Holds before ev h v))

new_hub-Holds : (capacity : ℕ) → Holds [] (new_hub capacity)
unfolding new_hub
new_hub-Holds capacity =
    let r = length-replicate (ring_capacity capacity) zero_event in
    record {
      room = rw r (ground arith);
      inside = rw r (ground arith);
      filled = rw r (ground arith);
      held = λ k q. absurd (omega (arith, q));
    }

new-length : (capacity : ℕ) → length (new_hub capacity).ring ≡ ring_capacity capacity
unfolding new_hub
new-length capacity = length-replicate (ring_capacity capacity) zero_event

push-length : (ev : Event) (h : Hub) → length (push_locked ev h).ring ≡ length h.ring
unfolding push_locked
push-length ev h =
    ground (
      arith,
      length-set h.ring ((h.start + h.size) % length h.ring) ev,
      length-set h.ring h.start ev,
    )

deliver_all-length : (evs : List Event) (h : Hub) → length (deliver_all evs h).ring ≡ length h.ring
unfolding deliver_all deliver
deliver_all-length [] h = refl
deliver_all-length (ev ∷ evs) h = deliver_all-length evs (deliver ev h) ∙ push-length ev h

-- After any events have been delivered to a new hub, in whatever order, SnapshotSince gives those of
-- the last `ring_capacity capacity` delivered (100 for a capacity of 0) that are since the id, in the
-- order of their delivery; for the id 0 it gives all of these.
pub snapshot_since-deliver_all :
    (capacity last_id : ℕ) (evs : List Event)
    → snapshot_since last_id (deliver_all evs (new_hub capacity))
      ≡ select (is_since last_id) (drop (length evs - ring_capacity capacity) evs)
unfolding snapshot_since
snapshot_since-deliver_all capacity last_id evs =
    let h = deliver_all evs (new_hub capacity) in
    let v = deliver_all-Holds [] evs (new_hub capacity) (new_hub-Holds capacity) in
    let r = deliver_all-length evs (new_hub capacity) ∙ new-length capacity in
    let s : length evs - h.size ≡ length evs - ring_capacity capacity =
      ground (arith, v.filled, r) in
    rw (← s) (
      collects last_id evs h h.size 0 (length evs - h.size)
        (λ k q.
          ap (λ z. get_elem? h.ring ((h.start + z) % length h.ring)) (omega arith) ∙ v.held k q)
        (ground (arith, v.filled)))
