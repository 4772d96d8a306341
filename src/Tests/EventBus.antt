-- ===== src/Tests/EventBus.antt =====
-- A bus with one subscriber that notes what it receives.
use localcloud.Base.{pos, Bytes, codes, ℕ, ◌≡◌, refl, true, some, List, [], ◌∷◌, ◌++◌, arith}
use localcloud.EventBus.{Subscriber, Bus, subscribe, publish}
use localcloud.EventBus.Decimal.{itoa, value_from, itoa-value}
use localcloud.EventBus.Ids.{Subscribed, subscribe-Subscribed}
use localcloud.EventBus.Delivery.{publish-log}

itoa-value_example : (s : Bytes) × (itoa (pos 1024) ≡ some s) × (value_from 0 s ≡ 1024)
itoa-value_example = itoa-value 1024 (omega arith)

abbrev Notebook : Type 0
Notebook = List (Bytes × ℕ)

abbrev idle : Bus ℕ Notebook
idle = record { subscribers = []; next_id = pos 0 }

-- Notes the event, then panics.
abbrev note : Subscriber ℕ Notebook
note event s = (s ++ (codes "sub_1", event) ∷ [], true)

abbrev noting : Bus ℕ Notebook
noting = record { subscribers = (codes "sub_1", note) ∷ []; next_id = pos 1 }

subscribe-Subscribed_example :
    (b' : Bus ℕ Notebook) × (id : Bytes) × (subscribe note idle ≡ some (b', id))
    × Subscribed note idle b' id
subscribe-Subscribed_example =
    subscribe-Subscribed note idle (record { last = 0; last_is = refl; issued = tt }) (omega arith)

publish-log_example : publish noting 7 [] ≡ [] ++ (codes "sub_1", 7) ∷ []
publish-log_example = publish-log (λ s. s) noting 7 [] ((λ event s. refl), tt)
