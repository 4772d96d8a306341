-- ===== src/Api/Stream/Queues.antt =====
-- What a client of the live stream gets.
use localcloud.Base.{
  ltb, eqb, Bool-cases, length, All, length-append, All-append, All-filtered, Bytes, both_branches,
  ℕ, ◌≤◌, ◌≡◌, refl, sym, ap, ◌∙◌, subst, inl, inr, not, none, some, List, [], ◌∷◌, ◌++◌, map,
  arith,
}
use mathlib.Core.List.{append-nil, append_assoc}
use localcloud.Api.Stream.{
  Client, Stream, no_clients, capacity, add_sse_client, remove_sse_client, offer, broadcast_sse,
  write_next, take_one, handle_next, Op, connect, leave, publish, next, step, run,
}

-- `xs` is `ys` with some elements left out.
pub data InOrder : List Bytes → List Bytes → Type 0 where
  done : InOrder [] []
  keeps : {xs ys : List Bytes} (d : Bytes) → InOrder xs ys → InOrder (d ∷ xs) (d ∷ ys)
  drops : {xs ys : List Bytes} (d : Bytes) → InOrder xs ys → InOrder xs (d ∷ ys)

InOrder-nil : (ys : List Bytes) → InOrder [] ys
InOrder-nil [] = done
InOrder-nil (d ∷ ys) = drops d (InOrder-nil ys)

InOrder-keep :
    {xs ys : List Bytes} (d : Bytes) → InOrder xs ys → InOrder (xs ++ d ∷ []) (ys ++ d ∷ [])
InOrder-keep d done = keeps d done
InOrder-keep d (keeps e h) = keeps e (InOrder-keep d h)
InOrder-keep d (drops e h) = drops e (InOrder-keep d h)

InOrder-drop : {xs ys : List Bytes} (d : Bytes) → InOrder xs ys → InOrder xs (ys ++ d ∷ [])
InOrder-drop d done = drops d done
InOrder-drop d (keeps e h) = keeps e (InOrder-drop d h)
InOrder-drop d (drops e h) = drops e (InOrder-drop d h)

-- The data that was published.
pub published : List Op → List Bytes
published [] = []
published (connect ∷ os) = published os
published (leave key ∷ os) = published os
published (publish none ∷ os) = published os
published (publish (some payload) ∷ os) = payload ∷ published os
published (next key ∷ os) = published os

-- The channel is within its capacity, and what the client got and has waiting was sent in order.
pub record IsServed (sent : List Bytes) (c : Client) : Type 0 where
  pub bounded : length c.queue ≤ capacity
  pub ordered : InOrder (c.written ++ c.queue) sent

offer-IsServed :
    (sent : List Bytes) (d : Bytes) (c : Client)
    → IsServed sent c
    → IsServed (sent ++ d ∷ []) (offer d c)
unfolding offer
offer-IsServed sent d c h = elim (Bool-cases (ltb (length c.queue) capacity)) [
  | inl e ↦
      let taken : IsServed (sent ++ d ∷ []) (record c { queue = c.queue ++ d ∷ [] }) = record {
        bounded = ground (arith, e, length-append c.queue (d ∷ []));
        ordered =
            subst (λ l. InOrder l (sent ++ d ∷ [])) (append_assoc c.written c.queue (d ∷ []))
              (InOrder-keep d h.ordered);
      } in
      rw (e) taken
  | inr e ↦
      let dropped : IsServed (sent ++ d ∷ []) c = record {
        bounded = h.bounded;
        ordered = InOrder-drop d h.ordered;
      } in
      rw (e) dropped
]

take_one-IsServed :
    (sent : List Bytes) (c : Client) (q : List Bytes)
    → c.queue ≡ q
    → IsServed sent c
    → IsServed sent (take_one c q)
take_one-IsServed sent c [] e h = h
take_one-IsServed sent c (d ∷ ds) e h = record {
  bounded = omega (arith, h.bounded, ap length e);
  ordered =
      subst (λ l. InOrder l sent)
        (ap (λ l. c.written ++ l) e ∙ sym (append_assoc c.written (d ∷ []) ds)) h.ordered;
}

write_next-IsServed :
    (sent : List Bytes) (key : ℕ) (c : Client) → IsServed sent c → IsServed sent (write_next key c)
unfolding write_next
write_next-IsServed sent key c h =
    both_branches (IsServed sent) (eqb c.key key) _ _ (take_one-IsServed sent c c.queue refl h) h

All-map :
    {A : Type 0} (P Q : A → Type 0) (f : A → A) (xs : List A)
    → ((x : A) → P x → Q (f x))
    → All P xs
    → All Q (map f xs)
All-map P Q f [] h ps = tt
All-map P Q f (x ∷ xs) h ps = (h x ps.0, All-map P Q f xs h ps.1)

abbrev AreServed : List Bytes → Stream → Type 0
AreServed sent s = All (IsServed sent) s.clients

run-AreServed :
    (os : List Op) (sent : List Bytes) (s : Stream)
    → AreServed sent s
    → AreServed (sent ++ published os) (run os s)
unfolding run step published add_sse_client remove_sse_client broadcast_sse handle_next
run-AreServed [] sent s h = subst (λ l. AreServed l s) (sym (append-nil sent)) h
run-AreServed (connect ∷ os) sent s h = run-AreServed os sent (add_sse_client s).1 (
    All-append (IsServed sent) s.clients _ h
      (record { bounded = omega arith; ordered = InOrder-nil sent }, tt))
run-AreServed (leave key ∷ os) sent s h =
    run-AreServed os sent (remove_sse_client key s)
      (All-filtered (IsServed sent) (λ c. not (eqb c.key key)) s.clients h)
run-AreServed (publish none ∷ os) sent s h = run-AreServed os sent s h
run-AreServed (publish (some d) ∷ os) sent s h =
    subst (λ l. AreServed l (run os (broadcast_sse d s)))
      (append_assoc sent (d ∷ []) (published os))
      (run-AreServed os (sent ++ d ∷ []) (broadcast_sse d s) (
        All-map (IsServed sent) (IsServed (sent ++ d ∷ [])) (offer d) s.clients
          (λ c k. offer-IsServed sent d c k) h))
run-AreServed (next key ∷ os) sent s h = run-AreServed os sent (handle_next key s) (
    All-map (IsServed sent) (IsServed sent) (write_next key) s.clients
      (λ c k. write_next-IsServed sent key c k) h)

-- Whatever happens to the stream, each client's channel holds at most 64 events, and what the
-- client was written, followed by what waits in its channel, is a part of the published events in
-- the order in which they were published.
pub run-IsServed : (os : List Op) → All (IsServed (published os)) (run os no_clients).clients
run-IsServed os = run-AreServed os [] no_clients tt
