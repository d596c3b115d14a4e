-- ===== src/Events/Examples.antt =====
-- Instances of the theorems about the event hub.
use senechal_gw.Prelude.{ℕ, ◌-◌, ◌≡◌, refl, some, List, [], ◌∷◌, take, drop, length, select}
use senechal_gw.Events.{
  Event, Hub, ring_capacity, new_hub, deliver, subscribe, channel_capacity, is_since,
  snapshot_since,
}
use senechal_gw.Events.Ring.{deliver_all, snapshot_since-deliver_all}
use senechal_gw.Events.Channels.{made, delivered, channel, subscribe-deliver_all}

abbrev event : ℕ → Event
event id = record { id = id; type = "job.failed"; at = 0; payload = "{}" }

abbrev three : List Event
three = event 1 ∷ event 3 ∷ event 2 ∷ []

snapshot_since-deliver_all_example :
    snapshot_since 1 (deliver_all three (new_hub 2))
    ≡ select (is_since 1) (drop (length three - ring_capacity 2) three)
snapshot_since-deliver_all_example = snapshot_since-deliver_all 2 1 three

two_are_kept :
    select (is_since 1) (drop (length three - ring_capacity 2) three) ≡ event 3 ∷ event 2 ∷ []
unfolding select
two_are_kept = refl

abbrev hub : Hub
hub = deliver (event 1) (new_hub 2)

subscribe-deliver_all_example :
    channel (subscribe hub).0 (deliver_all three (subscribe hub).1)
    ≡ some (take channel_capacity three)
subscribe-deliver_all_example = subscribe-deliver_all 2 hub three (delivered (event 1) made)
