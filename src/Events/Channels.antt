-- ===== src/Events/Channels.antt =====
-- A subscriber's channel of internal/events/hub.go: what is in it before the subscriber reads.
use senechal_gw.Prelude.{
  ℕ, ◌-◌, ◌≤◌, ◌<◌, ◌≡◌, refl, sym, ap, ◌∙◌, inl, inr, Bool, true, not, Option, none, some, List,
  [], ◌∷◌, ◌++◌, map, length, length-append, append_nil, append_assoc, take, find?, count_p, arith,
  ltb, ◌==◌, Bool-cases,
}
use senechal_gw.Prelude.Rows.{count_p-append, count_p-select_le}
use senechal_gw.Prelude.Places.{take-nil, take-cons}
use senechal_gw.Events.{
  Event, Sub, Hub, new_hub, push_locked, offer, deliver, subscribe, cancel, channel_capacity,
}
use senechal_gw.Events.Ring.{deliver_all}

abbrev pub is_sub : ℕ → Sub → Bool
is_sub id s = s.id == id

-- The channel of a subscription, while it is there.
abbrev pub channel : ℕ → Hub → Option (List Event)
channel id h = elim (find? (is_sub id) h.subs) [ none ↦ none | some s ↦ some s.buffer ]

-- Every subscription has an id that has been given out.
pub record IsNumbered (h : Hub) : Type 0 where
  pub given : (id : ℕ) → h.next_sub_id ≤ id → count_p (is_sub id) h.subs ≡ 0

offer_each : List Event → Sub → Sub
offer_each [] s = s
offer_each (ev ∷ evs) s = offer_each evs (offer ev s)

offer-room :
    (ev : Event) (s : Sub)
    → length s.buffer < channel_capacity
    → (offer ev s).buffer ≡ s.buffer ++ ev ∷ []
unfolding offer
offer-room ev s l = ground (arith, l)

offer-full :
    (ev : Event) (s : Sub) → channel_capacity ≤ length s.buffer → (offer ev s).buffer ≡ s.buffer
unfolding offer
offer-full ev s l = ground (arith, l)

offer_each-buffer :
    (evs : List Event) (s : Sub)
    → length s.buffer ≤ channel_capacity
    → (offer_each evs s).buffer ≡ s.buffer ++ take (channel_capacity - length s.buffer) evs
unfolding offer_each
offer_each-buffer [] s l =
    sym (
      ap (λ x. s.buffer ++ x) (take-nil (channel_capacity - length s.buffer)) ∙ append_nil s.buffer)
offer_each-buffer (ev ∷ evs) s l = elim (Bool-cases (ltb (length s.buffer) channel_capacity)) [
  | inl t ↦
      let b = offer-room ev s (ground (arith, t)) in
      let a = length-append s.buffer (ev ∷ []) in
      offer_each-buffer evs (offer ev s) (rw (b, a) (ground (arith, t)))
      ∙ rw (b, a)
          (append_assoc s.buffer (ev ∷ []) _
            ∙ ap (λ x. s.buffer ++ x) (sym (take-cons _ _ ev evs (ground (arith, t)))))
  | inr t ↦
      let b = offer-full ev s (ground (arith, t)) in
      let z : channel_capacity - length s.buffer ≡ 0 = ground (arith, t) in
      offer_each-buffer evs (offer ev s) (rw b l) ∙ rw (b, z) refl
]

abbrev mapped : (Sub → Sub) → Option Sub → Option Sub
mapped f none = none
mapped f (some s) = some (f s)

find-offer :
    (id : ℕ) (ev : Event) (subs : List Sub)
    → find? (is_sub id) (map (offer ev) subs) ≡ mapped (offer ev) (find? (is_sub id) subs)
unfolding find? offer
find-offer id ev [] = refl
find-offer id ev (s ∷ ss) = ground (arith, find-offer id ev ss)

deliver_all-found :
    (id : ℕ) (evs : List Event) (h : Hub) {s : Sub}
    → find? (is_sub id) h.subs ≡ some s
    → find? (is_sub id) (deliver_all evs h).subs ≡ some (offer_each evs s)
unfolding deliver_all deliver offer_each
deliver_all-found id [] h f = f
deliver_all-found id (ev ∷ evs) h f =
    deliver_all-found id evs (deliver ev h) (find-offer id ev h.subs ∙ rw f refl)

find-last :
    (id : ℕ) (s : Sub) (subs : List Sub)
    → count_p (is_sub id) subs ≡ 0
    → is_sub id s ≡ true
    → find? (is_sub id) (subs ++ s ∷ []) ≡ some s
unfolding find? count_p
find-last id s [] c e = rw e refl
find-last id s (x ∷ xs) c e = ground (arith, c, find-last id s xs, e)

count_p-offer :
    (id : ℕ) (ev : Event) (subs : List Sub)
    → count_p (is_sub id) (map (offer ev) subs) ≡ count_p (is_sub id) subs
unfolding count_p offer
count_p-offer id ev [] = refl
count_p-offer id ev (s ∷ ss) = ground (arith, count_p-offer id ev ss)

subscribe-IsNumbered : (h : Hub) → IsNumbered h → IsNumbered (subscribe h).1
unfolding subscribe count_p
subscribe-IsNumbered h v = record {
  given = λ id l.
      rw (count_p-append (is_sub id) h.subs _, v.given id (omega (arith, l))) (ground (arith, l));
}

deliver-IsNumbered : (ev : Event) (h : Hub) → IsNumbered h → IsNumbered (deliver ev h)
unfolding deliver push_locked
deliver-IsNumbered ev h v = record {
  given = λ id l. count_p-offer id ev h.subs ∙ v.given id (ground (arith, l));
}

cancel-IsNumbered : (id : ℕ) (h : Hub) → IsNumbered h → IsNumbered (cancel id h)
unfolding cancel
cancel-IsNumbered id h v = record {
  given = λ i l.
      ground (arith, v.given i l, count_p-select_le (λ s. not (s.id == id)) (is_sub i) h.subs);
}

-- The hubs that the operations under the lock lead to, in whatever order.
pub data Reach (capacity : ℕ) : Hub → Type 0 where
  made : Reach capacity (new_hub capacity)
  delivered : {h : Hub} (ev : Event) → Reach capacity h → Reach capacity (deliver ev h)
  subscribed : {h : Hub} → Reach capacity h → Reach capacity (subscribe h).1
  cancelled : {h : Hub} (id : ℕ) → Reach capacity h → Reach capacity (cancel id h)

Reach-IsNumbered : (capacity : ℕ) {h : Hub} → Reach capacity h → IsNumbered h
unfolding new_hub count_p
Reach-IsNumbered capacity made = record { given = λ id l. refl }
Reach-IsNumbered capacity (delivered {h} ev r) =
    deliver-IsNumbered ev h (Reach-IsNumbered capacity r)
Reach-IsNumbered capacity (subscribed {h} r) = subscribe-IsNumbered h (Reach-IsNumbered capacity r)
Reach-IsNumbered capacity (cancelled {h} id r) =
    cancel-IsNumbered id h (Reach-IsNumbered capacity r)

-- Until the subscriber reads, the channel of a new subscription holds the first 128 of the events
-- delivered since, in order: the later ones are dropped. The hub is one that its operations lead to.
pub subscribe-deliver_all :
    (capacity : ℕ) (h : Hub) (evs : List Event)
    → Reach capacity h
    → channel (subscribe h).0 (deliver_all evs (subscribe h).1) ≡ some (take channel_capacity evs)
unfolding subscribe
subscribe-deliver_all capacity h evs r =
    let v = Reach-IsNumbered capacity r in
    let s : Sub = record { id = h.next_sub_id; buffer = [] } in
    let f = find-last h.next_sub_id s h.subs (v.given h.next_sub_id (omega arith)) (ground arith) in
    let g = deliver_all-found h.next_sub_id evs (subscribe h).1 f in
    rw (channel, g) (ap some (offer_each-buffer evs s (omega arith)))
