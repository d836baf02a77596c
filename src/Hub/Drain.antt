-- ===== src/Hub/Drain.antt =====
-- apps/api-server/internal/websocket/handler.go: a pump that keeps writing delivers what is queued.
use telecom_platform.Base.{
  ℕ, ◌+◌, ◌≤◌, ◌≡◌, refl, sym, ap, ◌∙◌, inl, inr, Bool, true, false, ◌&&◌, some, List, [], ◌∷◌,
  ◌++◌, String, arith, ◌==◌, ltb, length, if◌then◌else◌, Bool-cases, Option-cases, All,
}
use mathlib.Core.List.{append_assoc, append-nil}
use telecom_platform.Hub.{
  Client, Hub, capacity, unregister_client, send_to, take, write_client, close_client, Event,
  connect, unregister, message, write, close, step, run,
}
use telecom_platform.Hub.Delivery.{effect, client_at}
use telecom_platform.Hub.Streams.{step-effect}

-- How often the pump of a client gets its turn.
abbrev pub turns : ℕ → List Event → ℕ
turns id [] = 0
turns id (connect k ∷ events) = turns id events
turns id (unregister k ∷ events) = turns id events
turns id (message ready text ∷ events) = turns id events
turns id (write k works ∷ events) = (if k == id then 1 else 0) + turns id events
turns id (close k ∷ events) = turns id events

-- No write of the client fails.
abbrev pub Works : ℕ → Event → Type 0
Works id (connect k) = Unit
Works id (unregister k) = Unit
Works id (message ready text) = Unit
Works id (write k works) = (k == id) ≡ true → works ≡ true
Works id (close k) = Unit

-- These messages come first in the queue, and the pump runs.
record Ready (waiting : List String) (c : Client) : Type 0 where
  after : List String
  first : c.queue ≡ waiting ++ after
  running : c.writing ≡ true

-- Whether the event is a turn of the client's pump.
abbrev turn : ℕ → Event → Bool
turn id (connect k) = false
turn id (unregister k) = false
turn id (message ready text) = false
turn id (write k works) = k == id
turn id (close k) = false

take-grows :
    (works : Bool) (queue : List String) (c : Client)
    → (more : List String) × ((take works queue c).taken ≡ c.taken ++ more)
unfolding take
take-grows works [] c = ([], ground (arith, append-nil c.taken))
take-grows works (m ∷ queue) c = (m ∷ [], refl)

effect-grows :
    (e : Event) (c c' : Client)
    → effect e c ≡ some c'
    → (more : List String) × (c'.taken ≡ c.taken ++ more)
unfolding effect unregister_client send_to write_client close_client
effect-grows (connect id) c c' h = ([], ground (arith, append-nil c.taken))
effect-grows (unregister id) c c' h = ([], ground (arith, append-nil c.taken))
effect-grows (message ready text) c c' h = ([], ground (arith, append-nil c.taken))
effect-grows (write id works) c c' h = elim (Bool-cases (c.id == id && c.writing)) [
  | inl mine ↦
      let same : take works c.queue c ≡ c' = ground arith in
      let (more, grown) = take-grows works c.queue c in (more, rw (← same) grown)
  | inr other ↦ ([], ground (arith, append-nil c.taken))
]
effect-grows (close id) c c' h = ([], ground (arith, append-nil c.taken))

-- A turn takes the first message.
turn-takes :
    (e : Event) (m : String) (waiting : List String) (c c' : Client)
    → turn c.id e ≡ true
    → Works c.id e
    → effect e c ≡ some c'
    → Ready (m ∷ waiting) c
    → (c'.taken ≡ c.taken ++ m ∷ []) × Ready waiting c'
unfolding effect write_client take
turn-takes (connect id) m waiting c c' t w h r = cc
turn-takes (unregister id) m waiting c c' t w h r = cc
turn-takes (message ready text) m waiting c c' t w h r = cc
turn-takes (write id works) m waiting c c' t w h r =
    let ok : works ≡ true = w t in
    let mine : (c.id == id) ≡ true = ground arith in
    let h' = rw (mine, r.running, r.first) at h in
    (ground arith, record { after = r.after; first = ground arith; running = ground arith })
turn-takes (close id) m waiting c c' t w h r = cc

unmoved :
    (waiting : List String) (c c' : Client)
    → c'.taken ≡ c.taken
    → c'.queue ≡ c.queue
    → c'.writing ≡ c.writing
    → Ready waiting c
    → (c'.taken ≡ c.taken) × Ready waiting c'
unmoved waiting c c' t q w r =
    (t, record { after = r.after; first = q ∙ r.first; running = w ∙ r.running })

send-waits :
    (text : String) (waiting : List String) (c c' : Client)
    → send_to text c ≡ some c'
    → Ready waiting c
    → (c'.taken ≡ c.taken) × Ready waiting c'
unfolding send_to
send-waits text waiting c c' h r =
    elim (Bool-cases (c.registered && ltb (length c.queue) capacity)) [
      | inl room ↦ (
        ground arith,
        record {
          after = r.after ++ text ∷ [];
          first =
              let q : c'.queue ≡ c.queue ++ text ∷ [] = ground arith in
              q
              ∙ ap (λ (xs : List String). xs ++ text ∷ []) r.first
              ∙ append_assoc waiting r.after (text ∷ []);
          running = ground arith;
        },
      )
      | inr full ↦ unmoved waiting c c' (ground arith) (ground arith) (ground arith) r
    ]

-- Any other event leaves the queue's first messages where they are.
others-wait :
    (e : Event) (waiting : List String) (c c' : Client)
    → turn c.id e ≡ false
    → effect e c ≡ some c'
    → Ready waiting c
    → (c'.taken ≡ c.taken) × Ready waiting c'
unfolding effect unregister_client write_client close_client
others-wait (connect id) waiting c c' t h r =
    unmoved waiting c c' (ground arith) (ground arith) (ground arith) r
others-wait (unregister id) waiting c c' t h r =
    unmoved waiting c c' (ground arith) (ground arith) (ground arith) r
others-wait (message false text) waiting c c' t h r =
    unmoved waiting c c' (ground arith) (ground arith) (ground arith) r
others-wait (message true text) waiting c c' t h r = send-waits text waiting c c' h r
others-wait (write id works) waiting c c' t h r =
    unmoved waiting c c' (ground arith) (ground arith) (ground arith) r
others-wait (close id) waiting c c' t h r =
    unmoved waiting c c' (ground arith) (ground arith) (ground arith) r

run-grows :
    (events : List Event) (id : ℕ) (c : Client) (hub hub' : Hub)
    → client_at id hub ≡ some c
    → run events hub ≡ some hub'
    → (c' : Client) × (more : List String) × (client_at id hub' ≡ some c')
      × (c'.taken ≡ c.taken ++ more)
unfolding run
run-grows [] id c hub hub' h r =
    let same : hub ≡ hub' = ground arith in (c, [], rw (← same) h, sym (append-nil c.taken))
run-grows (e ∷ events) id c hub hub' h r = elim (Option-cases (step e hub)) [
  | inl panics ↦ cc (rw panics at r)
  | inr (next, s) ↦
      let (c1, changed, there) = step-effect e id c hub next h s in
      let (more, grown) = effect-grows e c c1 changed in
      let (c2, rest, found, grown') = run-grows events id c1 next hub' there (rw s at r) in
      (
        c2,
        more ++ rest,
        found,
        grown' ∙ ap (λ (xs : List String). xs ++ rest) grown ∙ append_assoc c.taken more rest,
      )
]

turns-cons :
    (id : ℕ) (e : Event) (events : List Event)
    → turns id (e ∷ events) ≡ (if turn id e then 1 else 0) + turns id events
turns-cons id (connect k) events = omega arith
turns-cons id (unregister k) events = omega arith
turns-cons id (message ready text) events = omega arith
turns-cons id (write k works) events = refl
turns-cons id (close k) events = omega arith

pub client_at-id : (id : ℕ) (c : Client) (hub : Hub) → client_at id hub ≡ some c → c.id ≡ id
unfolding client_at
client_at-id id c [] h = cc
client_at-id id c (u ∷ hub) h = ground (arith, client_at-id id c hub)

waiting-drains :
    (events : List Event) (id : ℕ) (waiting : List String) (c : Client) (hub hub' : Hub)
    → All (λ (e : Event). Works id e) events
    → client_at id hub ≡ some c
    → run events hub ≡ some hub'
    → Ready waiting c
    → length waiting ≤ turns id events
    → (c' : Client) × (rest : List String) × (client_at id hub' ≡ some c')
      × (c'.taken ≡ c.taken ++ (waiting ++ rest))
unfolding run
waiting-drains events id [] c hub hub' w h r q l = run-grows events id c hub hub' h r
waiting-drains [] id (m ∷ waiting) c hub hub' w h r q l = absurd (omega arith)
waiting-drains (e ∷ events) id (m ∷ waiting) c hub hub' (w, ws) h r q l =
    elim (Option-cases (step e hub)) [
      | inl panics ↦ cc (rw panics at r)
      | inr (next, s) ↦
          let (c1, changed, there) = step-effect e id c hub next h s in
          let i : c.id ≡ id = client_at-id id c hub h in
          let later = rw s at r in
          elim (Bool-cases (turn id e)) [
            | inl mine ↦
                let (took, ready) = turn-takes e m waiting c c1 (rw i mine) (rw i w) changed q in
                let (c2, rest, found, drained) =
                  waiting-drains events id waiting c1 next hub' ws there later ready
                    (ground (arith, turns-cons id e events)) in
                (
                  c2,
                  rest,
                  found,
                  drained
                      ∙ ap (λ (xs : List String). xs ++ (waiting ++ rest)) took
                      ∙ append_assoc c.taken (m ∷ []) (waiting ++ rest),
                )
            | inr other ↦
                let (same, ready) = others-wait e (m ∷ waiting) c c1 (rw i other) changed q in
                let (c2, rest, found, drained) =
                  waiting-drains events id (m ∷ waiting) c1 next hub' ws there later ready
                    (ground (arith, turns-cons id e events)) in
                (
                  c2,
                  rest,
                  found,
                  drained ∙ ap (λ (xs : List String). xs ++ ((m ∷ waiting) ++ rest)) same,
                )
          ]
    ]

-- A client's pump that runs, none of whose writes fails, and that gets as many turns as there are messages
-- queued takes all of these in order, whatever else happens in between, a disconnection included, unless there
-- is a panic.
pub queue_drains :
    (events : List Event) (id : ℕ) (c : Client) (hub hub' : Hub)
    → All (λ (e : Event). Works id e) events
    → client_at id hub ≡ some c
    → run events hub ≡ some hub'
    → c.writing ≡ true
    → length c.queue ≤ turns id events
    → (c' : Client) × (rest : List String) × (client_at id hub' ≡ some c')
      × (c'.taken ≡ c.taken ++ (c.queue ++ rest))
queue_drains events id c hub hub' w h r running l =
    waiting-drains events id c.queue c hub hub' w h r
      (record { after = []; first = sym (append-nil c.queue); running = running }) l
