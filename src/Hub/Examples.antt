-- ===== src/Hub/Examples.antt =====
-- Witnesses and tests for apps/api-server/internal/websocket/handler.go.
use telecom_platform.Base.{◌≡◌, ◌≢◌, ◌++◌, refl, true, false, some, List, [], ◌∷◌, String, arith}
use telecom_platform.Hub.{
  Client, Hub, Event, connect, unregister, message, write, close, step, run, and_then, each,
  send_to, write_client, take, broadcast, handle_web_socket, has_client, new_client,
  unregister_client, get_client_count,
}
use telecom_platform.Hub.Channels.{Gives, AllSound, no_panic_without_close}
use telecom_platform.Hub.Delivery.{client_at, Delivers, broadcasts}
use telecom_platform.Hub.Streams.{messages_in_order}
use telecom_platform.Hub.Drain.{queue_drains}
use telecom_platform.Hub.Closing.{close_panics}

abbrev ann : Client
ann = record {
  id = 1;
  queue = "a" ∷ "b" ∷ [];
  sealed = false;
  closed = false;
  registered = true;
  taken = [];
  writing = true;
}

abbrev hub : Hub
hub = ann ∷ []

abbrev events : List Event
events = write 1 true ∷ connect 2 ∷ message true "c" ∷ write 1 true ∷ unregister 1 ∷ []

abbrev after : Hub
after =
    record {
      id = 2;
      queue = "c" ∷ [];
      sealed = false;
      closed = false;
      registered = true;
      taken = [];
      writing = true;
    }
    ∷ record ann { queue = "c" ∷ []; sealed = true; registered = false; taken = "a" ∷ "b" ∷ [] }
    ∷ []

runs : run events hub ≡ some after
unfolding run and_then step each send_to write_client take broadcast handle_web_socket has_client
    new_client unregister_client
runs = refl

counted : get_client_count after ≡ 1
unfolding get_client_count
counted = refl

no_panic_without_close_example : Gives AllSound (run events hub)
no_panic_without_close_example =
    no_panic_without_close events hub (tt, (tt, (tt, (tt, (tt, tt)))))
      (record { fits = omega arith; open_while_registered = refl }, tt)

messages_in_order_example :
    (c' : Client) × (client_at 1 after ≡ some c') × Delivers ann (broadcasts events) c'
unfolding client_at
messages_in_order_example = messages_in_order events 1 ann hub after refl runs

queue_drains_example :
    (c' : Client) × (rest : List String) × (client_at 1 after ≡ some c')
    × (c'.taken ≡ ann.taken ++ (ann.queue ++ rest))
unfolding client_at
queue_drains_example =
    queue_drains events 1 ann hub after ((λ e. refl), (tt, (tt, ((λ e. refl), (tt, tt))))) refl runs
      refl (omega arith)

close_panics_example : run (close 1 ∷ unregister 1 ∷ []) hub ≢ some after
unfolding client_at
close_panics_example = (close_panics 1 "c" ann hub after refl refl refl).0
