-- ===== src/Handler/SseHub.antt =====
-- The event hub of handler/sse_hub.go. A channel is a number, with its buffer of 16 events; the map of
-- subscribers is an association list, since Subscribe adds up its entries. Closing a closed channel,
-- or sending on one, panics in Go: a method returns the hub as it leaves it, and whether it returned
-- without a panic. Each method runs under the hub's mutex.
pub mod Bounds
mod Examples
use teenet_wallet.Base.{
  ℕ, suc, ◌+◌, Bool, true, false, not, Option, none, some, List, [], ◌∷◌, ◌++◌, if◌then◌else◌, ◌==◌,
  nat_eq, leb, ltb, length, select, String,
}

pub record SseEvent : Type 0 where
  pub type_name : String
  pub data_json : String

pub record Chan : Type 0 where
  pub buffer : List SseEvent
  pub closed : Bool

-- The hub and the channels that it made, of which `next` is the first unused number.
pub record SseHub : Type 0 where
  pub subscribers : List (ℕ × List ℕ)
  pub chans : ℕ → Chan
  pub next : ℕ

abbrev pub max_sse_conns_per_user : ℕ
max_sse_conns_per_user = 5

abbrev pub max_global_sse_conns : ℕ
max_global_sse_conns = 2000

abbrev pub buffer_size : ℕ
buffer_size = 16

unfoldable pub new_sse_hub : SseHub
new_sse_hub = record {
  subscribers = [];
  chans = λ _. record { buffer = []; closed = false };
  next = 0;
}

-- `subscribers[userID]`, nil for a missing key.
abbrev pub chans_of : ℕ → List (ℕ × List ℕ) → List ℕ
chans_of user [] = []
chans_of user ((u, cs) ∷ m) = if u == user then cs else chans_of user m

-- `subscribers[userID] = cs`
abbrev pub set_chans : ℕ → List ℕ → List (ℕ × List ℕ) → List (ℕ × List ℕ)
set_chans user cs [] = (user, cs) ∷ []
set_chans user cs ((u, old) ∷ m) = if u == user then (u, cs) ∷ m else (u, old) ∷ set_chans user cs m

-- `delete(subscribers, userID)`
abbrev pub delete_user : ℕ → List (ℕ × List ℕ) → List (ℕ × List ℕ)
delete_user user [] = []
delete_user user ((u, cs) ∷ m) = if u == user then m else (u, cs) ∷ delete_user user m

abbrev pub total : List (ℕ × List ℕ) → ℕ
total [] = 0
total ((u, cs) ∷ m) = length cs + total m

abbrev pub put_chan : ℕ → Chan → (ℕ → Chan) → ℕ → Chan
put_chan c x m k = if k == c then x else m k

unfoldable pub subscribe : SseHub → ℕ → SseHub × Option ℕ
subscribe h user =
    if leb max_global_sse_conns (total h.subscribers)
    then (h, none)
    else if leb max_sse_conns_per_user (length (chans_of user h.subscribers))
    then (h, none)
    else (
      record {
        subscribers = set_chans user (chans_of user h.subscribers ++ h.next ∷ []) h.subscribers;
        chans = put_chan h.next (record { buffer = []; closed = false }) h.chans;
        next = suc h.next;
      },
      some h.next,
    )

abbrev pub close_chan : ℕ → (ℕ → Chan) → (ℕ → Chan) × Bool
close_chan c m =
    if (m c).closed then (m, false) else (put_chan c (record (m c) { closed = true }) m, true)

abbrev pub is_other : ℕ → ℕ → Bool
is_other ch c = not (c == ch)

abbrev pub store_rest : ℕ → List ℕ → List (ℕ × List ℕ) → List (ℕ × List ℕ)
store_rest user [] m = delete_user user m
store_rest user (c ∷ cs) m = set_chans user (c ∷ cs) m

-- A nil channel is left alone.
unfoldable pub unsubscribe : SseHub → ℕ → Option ℕ → SseHub × Bool
unsubscribe h user none = (h, true)
unsubscribe h user (some ch) =
    let rest = store_rest user (select (is_other ch) (chans_of user h.subscribers)) h.subscribers in
    let closing = close_chan ch h.chans in
    (record h { subscribers = rest; chans = closing.0 }, closing.1)

abbrev pub close_all : List ℕ → (ℕ → Chan) → (ℕ → Chan) × Bool
close_all [] m = (m, true)
close_all (c ∷ cs) m =
    let closing = close_chan c m in
    elim closing.1 [ false ↦ (m, false) | true ↦ close_all cs closing.0 ]

-- The loop of Stop: the entries that a panic leaves, and the channels.
abbrev pub close_entries : List (ℕ × List ℕ) → (ℕ → Chan) → (List (ℕ × List ℕ) × (ℕ → Chan)) × Bool
close_entries [] m = (([], m), true)
close_entries ((u, cs) ∷ rest) m =
    let closing = close_all cs m in
    elim closing.1 [
      | false ↦ (((u, cs) ∷ rest, closing.0), false)
      | true ↦ close_entries rest closing.0
    ]

unfoldable pub stop : SseHub → SseHub × Bool
stop h =
    let closing = close_entries h.subscribers h.chans in
    (record h { subscribers = closing.0.0; chans = closing.0.1 }, closing.1)

-- The non-blocking send: a full buffer drops the event.
abbrev pub try_send : SseEvent → ℕ → (ℕ → Chan) → (ℕ → Chan) × Bool
try_send e c m =
    if (m c).closed
    then (m, false)
    else if ltb (length (m c).buffer) buffer_size
    then (put_chan c (record (m c) { buffer = (m c).buffer ++ e ∷ [] }) m, true)
    else (m, true)

abbrev pub send_all : SseEvent → List ℕ → (ℕ → Chan) → (ℕ → Chan) × Bool
send_all e [] m = (m, true)
send_all e (c ∷ cs) m =
    let sending = try_send e c m in
    elim sending.1 [ false ↦ (m, false) | true ↦ send_all e cs sending.0 ]

unfoldable pub broadcast : SseHub → ℕ → SseEvent → SseHub × Bool
broadcast h user e =
    let sending = send_all e (chans_of user h.subscribers) h.chans in
    (record h { chans = sending.0 }, sending.1)
