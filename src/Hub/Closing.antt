-- ===== src/Hub/Closing.antt =====
-- apps/api-server/internal/websocket/handler.go: what Close does to the hub.
use telecom_platform.Base.{
  ℕ, ◌≡◌, ◌≢◌, inl, inr, true, false, none, some, [], ◌∷◌, String, arith, Option-cases,
}
use telecom_platform.Hub.{
  Client, Hub, unregister_client, send_to, close_client, Event, unregister, message, close, step,
  run,
}
use telecom_platform.Hub.Delivery.{effect, client_at}
use telecom_platform.Hub.Drain.{client_at-id}
use telecom_platform.Hub.Streams.{step-effect}

-- After Close the channel of a registered client is closed, and the hub still has the client.
closed-effect :
    (id : ℕ) (c c' : Client)
    → c.id ≡ id
    → c.registered ≡ true
    → c.closed ≡ false
    → effect (close id) c ≡ some c'
    → (c'.sealed ≡ true) × (c'.registered ≡ true) × (c'.id ≡ id)
unfolding effect close_client
closed-effect id c c' i r n h = ground arith

gone_panics :
    (id : ℕ) (c : Client)
    → (c.sealed ≡ true) × (c.registered ≡ true) × (c.id ≡ id)
    → effect (unregister id) c ≡ none
unfolding effect unregister_client
gone_panics id c (s, r, i) = ground arith

sent_panics :
    (id : ℕ) (text : String) (c : Client)
    → (c.sealed ≡ true) × (c.registered ≡ true) × (c.id ≡ id)
    → effect (message true text) c ≡ none
unfolding effect send_to
sent_panics id text c (s, r, i) = ground arith

never :
    (e : Event) (id : ℕ) (c : Client) (hub hub' : Hub)
    → client_at id hub ≡ some c
    → effect e c ≡ none
    → run (e ∷ []) hub ≢ some hub'
unfolding run
never e id c hub hub' h p r = elim (Option-cases (step e hub)) [
  | inl panics ↦ cc (rw panics at r)
  | inr (next, s) ↦ let (c', changed, there) = step-effect e id c hub next h s in cc
]

-- The program panics when the hub disconnects a registered client on which Close has been called, and when
-- it broadcasts a message to it: no hub is left.
pub close_panics :
    (id : ℕ) (text : String) (c : Client) (hub hub' : Hub)
    → client_at id hub ≡ some c
    → c.registered ≡ true
    → c.closed ≡ false
    → (run (close id ∷ unregister id ∷ []) hub ≢ some hub')
      × (run (close id ∷ message true text ∷ []) hub ≢ some hub')
unfolding run
close_panics id text c hub hub' h r n = elim (Option-cases (step (close id) hub)) [
  | inl panics ↦ ((λ e. cc (rw panics at e)), λ e. cc (rw panics at e))
  | inr (next, s) ↦
      let (c', changed, there) = step-effect (close id) id c hub next h s in
      let facts = closed-effect id c c' (client_at-id id c hub h) r n changed in
      (
        (λ e. never (unregister id) id c' next hub' there (gone_panics id c' facts) (rw s at e)),
        λ e.
            never (message true text) id c' next hub' there (sent_panics id text c' facts)
              (rw s at e),
      )
]
