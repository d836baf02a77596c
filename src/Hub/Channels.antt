-- ===== src/Hub/Channels.antt =====
-- apps/api-server/internal/websocket/handler.go: channels and panics.
use telecom_platform.Base.{
  ℕ, ◌≤◌, ◌≡◌, refl, ap, inl, inr, Bool, true, false, not, ◌&&◌, Option, none, some, List, [], ◌∷◌,
  String, arith, ◌==◌, ltb, length, length-append, Bool-cases, All,
}
use telecom_platform.Hub.{
  Client, Hub, capacity, new_client, unregister_client, send_to, take, write_client, put, each,
  handle_web_socket, broadcast, has_client, Event, connect, unregister, message, write, close, step,
  and_then, run,
}

-- The queue fits the channel, and the channel of a client is open exactly while the hub has it.
pub record IsSound (c : Client) : Type 0 where
  pub fits : length c.queue ≤ capacity
  pub open_while_registered : c.sealed ≡ not c.registered

abbrev pub AllSound : Hub → Type 0
AllSound hub = All (λ (c : Client). IsSound c) hub

-- The result is there and satisfies a predicate.
abbrev pub Gives {ℓ} : {A : Type ℓ} → (A → Type 0) → Option A → Type 0
Gives P none = ⊥
Gives P (some a) = P a

each-Gives :
    (f : Client → Option Client) (hub : Hub)
    → ((c : Client) → IsSound c → Gives IsSound (f c))
    → AllSound hub
    → Gives AllSound (each f hub)
unfolding each
each-Gives f [] keep h = tt
each-Gives f (c ∷ hub) keep h = both (f c) (each f hub) (keep c h.0) (each-Gives f hub keep h.1)
  where
    both :
        (c' : Option Client) (rest : Option Hub)
        → Gives IsSound c'
        → Gives AllSound rest
        → Gives AllSound (put c' rest)
    both none rest p q = p
    both (some c') none p q = q
    both (some c') (some rest) p q = (p, q)

unregister-Gives : (id : ℕ) (c : Client) → IsSound c → Gives IsSound (unregister_client id c)
unfolding unregister_client
unregister-Gives id c h = elim (Bool-cases (c.id == id && c.registered)) [
  | inl mine ↦
      let unsealed : c.sealed ≡ false = ground arith in
      rw (mine, unsealed) (record { fits = h.fits; open_while_registered = refl })
  | inr other ↦ rw other h
]

send_to-Gives : (text : String) (c : Client) → IsSound c → Gives IsSound (send_to text c)
unfolding send_to
send_to-Gives text c h = elim (Bool-cases c.registered) [
  | inl member ↦
      let unsealed : c.sealed ≡ false = ground arith in
      elim (Bool-cases (ltb (length c.queue) capacity)) [
        | inl room ↦
            rw (member, unsealed, room)
              (record {
                fits = ground (arith, length-append c.queue (text ∷ []));
                open_while_registered = ground arith;
              })
        | inr full ↦
            rw (member, unsealed, full) (record { fits = h.fits; open_while_registered = refl })
      ]
  | inr gone ↦ rw gone (record { fits = h.fits; open_while_registered = ground arith })
]

take-IsSound : (works : Bool) (c : Client) → IsSound c → IsSound (take works c.queue c)
unfolding take
take-IsSound works c h = by_queue c.queue refl
  where
    by_queue : (queue : List String) → c.queue ≡ queue → IsSound (take works queue c)
    by_queue [] e = elim (Bool-cases c.sealed) [
      | inl done ↦ rw done (record { fits = h.fits; open_while_registered = ground arith })
      | inr waits ↦ rw waits (record { fits = h.fits; open_while_registered = ground arith })
    ]
    by_queue (m ∷ queue) e = record {
      fits = omega (arith, h.fits, ap (λ (q : List String). length q) e);
      open_while_registered = h.open_while_registered;
    }

write-Gives :
    (id : ℕ) (works : Bool) (c : Client) → IsSound c → Gives IsSound (write_client id works c)
unfolding write_client
write-Gives id works c h = elim (Bool-cases (c.id == id && c.writing)) [
  | inl mine ↦ rw mine (take-IsSound works c h)
  | inr other ↦ rw other h
]

connect-AllSound : (id : ℕ) (hub : Hub) → AllSound hub → AllSound (handle_web_socket id hub)
unfolding handle_web_socket new_client
connect-AllSound id hub h = elim (Bool-cases (has_client id hub)) [
  | inl old ↦ rw old h
  | inr new ↦ rw new (record { fits = omega arith; open_while_registered = refl }, h)
]

-- The event is not a call of Close.
abbrev pub NoClose : Event → Type 0
NoClose (close id) = ⊥
NoClose (connect id) = Unit
NoClose (unregister id) = Unit
NoClose (message ready text) = Unit
NoClose (write id works) = Unit

step-Gives : (e : Event) (hub : Hub) → NoClose e → AllSound hub → Gives AllSound (step e hub)
unfolding step broadcast
step-Gives (connect id) hub n h = connect-AllSound id hub h
step-Gives (unregister id) hub n h = each-Gives (unregister_client id) hub (unregister-Gives id) h
step-Gives (message true text) hub n h = each-Gives (send_to text) hub (send_to-Gives text) h
step-Gives (message false text) hub n h = h
step-Gives (write id works) hub n h =
    each-Gives (write_client id works) hub (write-Gives id works) h
step-Gives (close id) hub n h = elim n [ ]

and_then-Gives :
    (next : Option Hub) (f : Hub → Option Hub)
    → Gives AllSound next
    → ((hub : Hub) → AllSound hub → Gives AllSound (f hub))
    → Gives AllSound (and_then next f)
unfolding and_then
and_then-Gives none f g keep = g
and_then-Gives (some hub) f g keep = keep hub g

-- While nothing calls Close, no sequence of connections, disconnections, broadcasts and writes panics, from a hub
-- whose queues fit and where just the registered clients' channels are open; and it stays so.
pub no_panic_without_close :
    (events : List Event) (hub : Hub)
    → All (λ (e : Event). NoClose e) events
    → AllSound hub
    → Gives AllSound (run events hub)
unfolding run
no_panic_without_close [] hub n h = h
no_panic_without_close (e ∷ events) hub (n, ns) h =
    and_then-Gives (step e hub) (run events) (step-Gives e hub n h)
      λ next k. no_panic_without_close events next ns k
