-- ===== src/Api/Stream.antt =====
-- internal/api/server.go: the live stream of events to the clients (SSE). The mutex makes each
-- operation a step.
pub mod Queues
use localcloud.Base.{
  ltb, eqb, if◌then◌else◌, length, keep, Bytes, ℕ, ◌+◌, not, Option, none, some, List, [], ◌∷◌,
  ◌++◌, map,
}

-- A connected client: the `n` of its key `sse_n`, what its channel holds, and the data that its
-- handler has written.
pub record Client : Type 0 where
  pub key : ℕ
  pub queue : List Bytes
  pub written : List Bytes

pub record Stream : Type 0 where
  pub clients : List Client
  pub next_id : ℕ

abbrev pub no_clients : Stream
no_clients = record { clients = []; next_id = 0 }

-- make(chan []byte, 64).
abbrev pub capacity : ℕ
capacity = 64

pub add_sse_client : Stream → ℕ × Stream
add_sse_client s =
    let n = s.next_id + 1 in
    (
      n,
      record {
        clients = s.clients ++ record { key = n; queue = []; written = [] } ∷ [];
        next_id = n;
      },
    )

pub remove_sse_client : ℕ → Stream → Stream
remove_sse_client key s = record s { clients = keep (λ c. not (eqb c.key key)) s.clients }

-- `select { case ch <- payload: default: }`: a full channel drops the data.
pub offer : Bytes → Client → Client
offer payload c =
    if ltb (length c.queue) capacity then record c { queue = c.queue ++ payload ∷ [] } else c

pub broadcast_sse : Bytes → Stream → Stream
unfolding offer
broadcast_sse payload s = record s { clients = map (offer payload) s.clients }

-- The handler of a client takes from its channel and writes, if there is something.
abbrev take_one : Client → List Bytes → Client
take_one c [] = c
take_one c (d ∷ ds) = record c { queue = ds; written = c.written ++ d ∷ [] }

pub write_next : ℕ → Client → Client
write_next key c = if eqb c.key key then take_one c c.queue else c

pub handle_next : ℕ → Stream → Stream
unfolding write_next
handle_next key s = record s { clients = map (write_next key) s.clients }

-- What happens to the stream: a client connects or leaves, an event is published (`none` where it
-- has no JSON), or a client's handler gets to write.
pub data Op : Type 0 where
  connect : Op
  leave : ℕ → Op
  publish : Option Bytes → Op
  next : ℕ → Op

pub step : Op → Stream → Stream
unfolding add_sse_client remove_sse_client broadcast_sse handle_next
step connect s = (add_sse_client s).1
step (leave key) s = remove_sse_client key s
step (publish none) s = s
step (publish (some payload)) s = broadcast_sse payload s
step (next key) s = handle_next key s

pub run : List Op → Stream → Stream
unfolding step
run [] s = s
run (o ∷ os) s = run os (step o s)
