-- ===== src/EventBus/Delivery.antt =====
-- Every subscriber receives a published event once, whatever the other handlers do.
use localcloud.Base.{All, Bytes, ◌≡◌, sym, ap, ◌∙◌, List, [], ◌∷◌, ◌++◌, map}
use mathlib.Core.List.{append-nil, append_assoc}
use localcloud.EventBus.{Subscriber, Bus, deliver, publish}

module _ {E S : Type 0} (log : S → List (Bytes × E)) where
  -- A handler that notes its id and the event, and does with the rest of the world, and by
  -- panicking, what it likes.
  abbrev pub Notes : Bytes × Subscriber E S → Type 0
  Notes (id, fn) = (event : E) (s : S) → log (fn event s).0 ≡ log s ++ (id, event) ∷ []

  deliver-log :
      (subs : List (Bytes × Subscriber E S)) (event : E) (s : S)
      → All Notes subs
      → log (deliver subs event s) ≡ log s ++ map (λ e. (e.0, event)) subs
  unfolding deliver
  deliver-log [] event s h = sym (append-nil (log s))
  deliver-log ((id, fn) ∷ subs) event s h =
      deliver-log subs event (fn event s).0 h.1
      ∙ ap (λ l. l ++ map (λ e. (e.0, event)) subs) (h.0 event s)
      ∙ append_assoc (log s) ((id, event) ∷ []) (map (λ e. (e.0, event)) subs)

  -- When every handler notes what it receives, a publication adds to the notes the event once for
  -- each subscriber, in the order of the snapshot, also when handlers panic.
  pub publish-log :
      (b : Bus E S) (event : E) (s : S)
      → All Notes b.subscribers
      → log (publish b event s) ≡ log s ++ map (λ e. (e.0, event)) b.subscribers
  unfolding publish
  publish-log b event s h = deliver-log b.subscribers event s h
