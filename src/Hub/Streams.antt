-- ===== src/Hub/Streams.antt =====
-- apps/api-server/internal/websocket/handler.go: what the clients of a hub receive over many steps.
use telecom_platform.Base.{
  ℕ, ◌≡◌, refl, sym, ap, ◌∙◌, inl, inr, true, false, Option, some, List, [], ◌∷◌, ◌++◌, String,
  arith, ◌==◌, Bool-cases, Option-cases,
}
use mathlib.Core.List.{append_assoc}
use telecom_platform.Hub.{
  Client, Hub, new_client, unregister_client, send_to, write_client, close_client, each,
  handle_web_socket, broadcast, has_client, Event, connect, unregister, message, write, close, step,
  run,
}
use telecom_platform.Hub.Delivery.{
  effect, client_at, stream, sent_by, broadcasts, Delivers, effect-Delivers,
}

Delivers-trans :
    (c c1 c2 : Client) (ms ns : List String)
    → Delivers c ms c1
    → Delivers c1 ns c2
    → Delivers c (ms ++ ns) c2
Delivers-trans c c1 c2 ms ns d e =
    let assoc = append_assoc (stream c) ms ns in
    elim (Bool-cases c1.registered) [
      | inl member ↦
          let s : stream c1 ++ ns ≡ stream c ++ (ms ++ ns) =
            ap (λ (xs : List String). xs ++ ns) (d.all_sent member) ∙ assoc in
          record {
            same_id = e.same_id ∙ d.same_id;
            was_registered = λ r. d.was_registered (e.was_registered r);
            all_sent = λ r. e.all_sent r ∙ s;
            none_after = λ n. cc (d.was_registered member);
            missed = e.missed;
            in_order = e.in_order ∙ s;
          }
      | inr gone ↦
          let s : stream c2 ≡ stream c1 = e.none_after gone in
          record {
            same_id = e.same_id ∙ d.same_id;
            was_registered = λ r. d.was_registered (e.was_registered r);
            all_sent = λ r. cc (e.was_registered r);
            none_after = λ n. s ∙ d.none_after n;
            missed = d.missed ++ ns;
            in_order =
                ap (λ (xs : List String). xs ++ (d.missed ++ ns)) s
                ∙ sym (append_assoc (stream c1) d.missed ns)
                ∙ ap (λ (xs : List String). xs ++ ns) d.in_order
                ∙ assoc;
          }
    ]

client_at-has :
    (id : ℕ) (c : Client) (hub : Hub) → client_at id hub ≡ some c → has_client id hub ≡ true
unfolding client_at has_client
client_at-has id c [] h = cc
client_at-has id c (u ∷ hub) h = ground (arith, client_at-has id c hub)

client_at-each :
    (f : Client → Option Client)
    → ((c c' : Client) → f c ≡ some c' → c'.id ≡ c.id)
    → (id : ℕ) (c : Client) (hub hub' : Hub) → client_at id hub ≡ some c
    → each f hub ≡ some hub'
    → (c' : Client) × (f c ≡ some c') × (client_at id hub' ≡ some c')
unfolding client_at each
client_at-each f keep id c [] hub' h e = cc
client_at-each f keep id c (u ∷ hub) hub' h e = elim (Option-cases (f u)) [
  | inl panics ↦ cc (rw panics at e)
  | inr (u', fine) ↦ elim (Option-cases (each f hub)) [
    | inl panics ↦ cc (rw (fine, panics) at e)
    | inr (rest, done) ↦
        let cons : u' ∷ rest ≡ hub' = ground arith in
        let same_id : u'.id ≡ u.id = keep u u' fine in
        elim (Bool-cases (u.id == id)) [
          | inl mine ↦
              let same : u ≡ c = ground arith in
              let here : (u'.id == id) ≡ true = ground arith in
              (u', rw (← same) fine, rw (← cons) (rw here refl))
          | inr other ↦
              let (c', changed, there) = client_at-each f keep id c hub rest (rw other at h) done in
              let elsewhere : (u'.id == id) ≡ false = ground arith in
              (c', changed, rw (← cons) (rw elsewhere there))
        ]
  ]
]

connect-at :
    (new id : ℕ) (c : Client) (hub : Hub)
    → client_at id hub ≡ some c
    → client_at id (handle_web_socket new hub) ≡ some c
unfolding client_at handle_web_socket new_client
connect-at new id c hub h = elim (Bool-cases (has_client new hub)) [
  | inl old ↦ rw old h
  | inr fresh ↦ elim (Bool-cases (new == id)) [
    | inl same ↦ let e : new ≡ id = ground arith in cc (client_at-has id c hub h, rw e at fresh)
    | inr other ↦ rw (fresh, other) h
  ]
]

pub step-effect :
    (e : Event) (id : ℕ) (c : Client) (hub hub' : Hub)
    → client_at id hub ≡ some c
    → step e hub ≡ some hub'
    → (c' : Client) × (effect e c ≡ some c') × (client_at id hub' ≡ some c')
unfolding step effect broadcast
step-effect (connect new) id c hub hub' h s =
    let same : handle_web_socket new hub ≡ hub' = ground arith in
    (c, refl, rw (← same) (connect-at new id c hub h))
step-effect (unregister k) id c hub hub' h s =
    client_at-each (unregister_client k) (λ u u' e. (effect-Delivers (unregister k) u u' e).same_id)
      id c hub hub' h s
step-effect (message false text) id c hub hub' h s =
    let same : hub ≡ hub' = ground arith in (c, refl, rw (← same) h)
step-effect (message true text) id c hub hub' h s =
    client_at-each (send_to text) (λ u u' e. (effect-Delivers (message true text) u u' e).same_id)
      id c hub hub' h s
step-effect (write k works) id c hub hub' h s =
    client_at-each (write_client k works)
      (λ u u' e. (effect-Delivers (write k works) u u' e).same_id) id c hub hub' h s
step-effect (close k) id c hub hub' h s =
    client_at-each (close_client k) (λ u u' e. (effect-Delivers (close k) u u' e).same_id) id c hub
      hub' h s

-- Over any steps that do not panic, a client that is there is sent the messages that Run broadcasts, in their
-- order and without gaps or repetitions, as long as the hub has it: all of them if the hub still has it in
-- the end, else those up to some message, and none after it. What it has been sent is what its pump has taken with
-- what is queued.
pub messages_in_order :
    (events : List Event) (id : ℕ) (c : Client) (hub hub' : Hub)
    → client_at id hub ≡ some c
    → run events hub ≡ some hub'
    → (c' : Client) × (client_at id hub' ≡ some c') × Delivers c (broadcasts events) c'
unfolding run effect
messages_in_order [] id c hub hub' h r =
    let same : hub ≡ hub' = ground arith in
    (c, rw (← same) h, effect-Delivers (message false "") c c refl)
messages_in_order (e ∷ events) id c hub hub' h r = elim (Option-cases (step e hub)) [
  | inl panics ↦ cc (rw panics at r)
  | inr (next, s) ↦
      let (c1, changed, there) = step-effect e id c hub next h s in
      let (c2, found, d) = messages_in_order events id c1 next hub' there (rw s at r) in
      (
        c2,
        found,
        Delivers-trans c c1 c2 (sent_by e) (broadcasts events) (effect-Delivers e c c1 changed) d,
      )
]
