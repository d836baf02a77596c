-- ===== src/Hub.antt =====
-- apps/api-server/internal/websocket/handler.go. A client is its record with its channel: the queue of the
-- channel, whether it is closed, what the write pump has taken from it, whether the pump runs, and whether
-- the hub has the client. Pointers to clients are numbers. The hub is the list of the clients that were made, in
-- which the order of `range` is that of the list. Each case of Run, and each turn of a pump, is one step; a
-- panic is `none`. The sockets, the pings, the incoming messages, which are only logged, and the
-- messages' texts are left out.
pub mod Delivery
pub mod Streams
pub mod Drain
pub mod Closing
pub mod Channels
mod Examples
use telecom_platform.Base.{
  ℕ, ◌+◌, Bool, true, false, not, ◌&&◌, Option, none, some, List, [], ◌∷◌, ◌++◌, String, ◌==◌, ltb,
  length, if◌then◌else◌,
}

pub record Client : Type 0 where
  pub id : ℕ
  pub queue : List String
  pub sealed : Bool
  pub closed : Bool
  pub registered : Bool
  pub taken : List String
  pub writing : Bool

abbrev pub Hub : Type 0
Hub = List Client

abbrev pub capacity : ℕ
capacity = 256

unfoldable pub new_client : ℕ → Client
new_client id = record {
  id = id;
  queue = [];
  sealed = false;
  closed = false;
  registered = false;
  taken = [];
  writing = false;
}

-- `close(c.send)`, which panics on a closed channel.
abbrev pub seal : Client → Option Client
seal c = if c.sealed then none else some (record c { sealed = true })

abbrev pub remove : Client → Client
remove c = record c { registered = false }

-- What each step does with one client.
unfoldable pub unregister_client : ℕ → Client → Option Client
unregister_client id c = if c.id == id && c.registered then seal (remove c) else some c

-- The inner `select`: a send on a closed channel panics, and a full queue is the default.
unfoldable pub send_to : String → Client → Option Client
send_to message c =
    if c.registered
    then if c.sealed
      then none
      else if ltb (length c.queue) capacity
      then some (record c { queue = c.queue ++ message ∷ [] })
      else seal (remove c)
    else some c

-- A message is taken and written, or the channel is closed and empty and the pump ends; else it waits. The
-- pump ends, too, where the write fails.
unfoldable pub take : Bool → List String → Client → Client
take works [] c = if c.sealed then record c { writing = false } else c
take works (message ∷ queue) c = record c {
  queue = queue;
  taken = c.taken ++ message ∷ [];
  writing = works;
}

unfoldable pub write_client : ℕ → Bool → Client → Option Client
unfolding take
write_client id works c = if c.id == id && c.writing then some (take works c.queue c) else some c

unfoldable pub close_client : ℕ → Client → Option Client
close_client id c = if c.id == id && not c.closed then seal (record c { closed = true }) else some c

abbrev pub put {ℓ} : {A : Type ℓ} → Option A → Option (List A) → Option (List A)
put none rest = none
put (some c) none = none
put (some c) (some rest) = some (c ∷ rest)

-- A step at each client; a panic stops the program.
unfoldable pub each : (Client → Option Client) → Hub → Option Hub
each f [] = some []
each f (c ∷ hub) = put (f c) (each f hub)

unfoldable pub has_client : ℕ → Hub → Bool
has_client id [] = false
has_client id (c ∷ hub) = let rest = has_client id hub in if c.id == id then true else rest

-- HandleWebSocket: a new client, whose pointer is new, is registered and its pump started.
unfoldable pub handle_web_socket : ℕ → Hub → Hub
unfolding new_client
handle_web_socket id hub =
    if has_client id hub
    then hub
    else record (new_client id) { registered = true; writing = true } ∷ hub

-- Broadcast: the hub's channel has no buffer, so a message is dropped unless Run waits for one.
unfoldable pub broadcast : Bool → String → Hub → Option Hub
broadcast ready message hub = if ready then each (send_to message) hub else some hub

abbrev count_if : Bool → ℕ → ℕ
count_if b n = if b then n + 1 else n

unfoldable pub get_client_count : Hub → ℕ
get_client_count [] = 0
get_client_count (c ∷ hub) = count_if c.registered (get_client_count hub)

pub data Event : Type 0 where
  connect : ℕ → Event
  unregister : ℕ → Event
  message : Bool → String → Event
  write : ℕ → Bool → Event
  close : ℕ → Event

unfoldable pub step : Event → Hub → Option Hub
step (connect id) hub = some (handle_web_socket id hub)
step (unregister id) hub = each (unregister_client id) hub
step (message ready text) hub = broadcast ready text hub
step (write id works) hub = each (write_client id works) hub
step (close id) hub = each (close_client id) hub

unfoldable pub and_then : Option Hub → (Hub → Option Hub) → Option Hub
and_then none f = none
and_then (some hub) f = f hub

unfoldable pub run : List Event → Hub → Option Hub
unfolding and_then
run [] hub = some hub
run (e ∷ events) hub = and_then (step e hub) (run events)
