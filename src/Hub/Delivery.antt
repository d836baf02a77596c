-- ===== src/Hub/Delivery.antt =====
-- apps/api-server/internal/websocket/handler.go: which messages reach a client, and in which order.
use telecom_platform.Base.{
  ℕ, ◌≡◌, refl, sym, ap, ◌∙◌, inl, inr, Bool, true, false, ◌&&◌, Option, none, some, List, [], ◌∷◌,
  ◌++◌, String, arith, ◌==◌, ltb, length, if◌then◌else◌, Bool-cases,
}
use mathlib.Core.List.{append_assoc, append-nil}
use telecom_platform.Hub.{
  Client, Hub, capacity, unregister_client, send_to, take, write_client, close_client, Event,
  connect, unregister, message, write, close,
}

-- What an event does to one client that is there.
unfoldable pub effect : Event → Client → Option Client
effect (connect id) c = some c
effect (unregister id) c = unregister_client id c
effect (message ready text) c = if ready then send_to text c else some c
effect (write id works) c = write_client id works c
effect (close id) c = close_client id c

unfoldable pub client_at : ℕ → Hub → Option Client
client_at id [] = none
client_at id (c ∷ hub) = if c.id == id then some c else client_at id hub

-- What the client has been sent: what its pump has taken and what is queued.
abbrev pub stream : Client → List String
stream c = c.taken ++ c.queue

abbrev pub sent_by : Event → List String
sent_by (message true text) = text ∷ []
sent_by (message false text) = []
sent_by (connect id) = []
sent_by (unregister id) = []
sent_by (write id works) = []
sent_by (close id) = []

-- The messages that Run broadcasts.
abbrev pub broadcasts : List Event → List String
broadcasts [] = []
broadcasts (e ∷ events) = sent_by e ++ broadcasts events

-- A client before and after some messages.
pub record Delivers (c : Client) (messages : List String) (c' : Client) : Type 0 where
  pub same_id : c'.id ≡ c.id
  pub was_registered : c'.registered ≡ true → c.registered ≡ true
  pub all_sent : c'.registered ≡ true → stream c' ≡ stream c ++ messages
  pub none_after : c.registered ≡ false → stream c' ≡ stream c
  pub missed : List String
  pub in_order : stream c' ++ missed ≡ stream c ++ messages

unchanged :
    (c c' : Client)
    → c'.id ≡ c.id
    → (c'.registered ≡ true → c.registered ≡ true)
    → stream c' ≡ stream c
    → Delivers c [] c'
unchanged c c' i r s = record {
  same_id = i;
  was_registered = r;
  all_sent = λ _. s ∙ sym (append-nil (stream c));
  none_after = λ _. s;
  missed = [];
  in_order = ap (λ (xs : List String). xs ++ []) s;
}

take-stream :
    (works : Bool) (queue : List String) (c : Client)
    → c.queue ≡ queue
    → stream (take works queue c) ≡ stream c
unfolding take
take-stream works [] c e = elim (Bool-cases c.sealed) [
  | inl done ↦ rw done refl
  | inr waits ↦ rw waits refl
]
take-stream works (m ∷ queue) c e =
    append_assoc c.taken (m ∷ []) queue ∙ ap (λ (q : List String). c.taken ++ q) (sym e)

take-rest :
    (works : Bool) (queue : List String) (c : Client)
    → ((take works queue c).id ≡ c.id) × ((take works queue c).registered ≡ c.registered)
unfolding take
take-rest works [] c = ground arith
take-rest works (m ∷ queue) c = (refl, refl)

send-Delivers :
    (text : String) (c c' : Client) → send_to text c ≡ some c' → Delivers c (text ∷ []) c'
unfolding send_to
send-Delivers text c c' h = elim (Bool-cases c.registered) [
  | inl member ↦ elim (Bool-cases (ltb (length c.queue) capacity)) [
    | inl room ↦
        let e : record c { queue = c.queue ++ text ∷ [] } ≡ c' = ground arith in
        let s : stream c' ≡ stream c ++ text ∷ [] =
          rw (← e) (sym (append_assoc c.taken c.queue (text ∷ []))) in
        record {
          same_id = ground arith;
          was_registered = λ r. member;
          all_sent = λ r. s;
          none_after = λ n. cc;
          missed = [];
          in_order = append-nil (stream c') ∙ s;
        }
    | inr full ↦
        let s : stream c' ≡ stream c = ground arith in
        record {
          same_id = ground arith;
          was_registered = λ r. member;
          all_sent = λ r. ground arith;
          none_after = λ n. cc;
          missed = text ∷ [];
          in_order = ap (λ (xs : List String). xs ++ text ∷ []) s;
        }
  ]
  | inr gone ↦
      let s : stream c' ≡ stream c = ground arith in
      record {
        same_id = ground arith;
        was_registered = λ r. ground arith;
        all_sent = λ r. ground arith;
        none_after = λ n. s;
        missed = text ∷ [];
        in_order = ap (λ (xs : List String). xs ++ text ∷ []) s;
      }
]

pub effect-Delivers : (e : Event) (c c' : Client) → effect e c ≡ some c' → Delivers c (sent_by e) c'
unfolding effect unregister_client write_client close_client
effect-Delivers (connect id) c c' h =
    unchanged c c' (ground arith) (λ r. ground arith) (ground arith)
effect-Delivers (unregister id) c c' h =
    unchanged c c' (ground arith) (λ r. ground arith) (ground arith)
effect-Delivers (message false text) c c' h =
    unchanged c c' (ground arith) (λ r. ground arith) (ground arith)
effect-Delivers (message true text) c c' h = send-Delivers text c c' h
effect-Delivers (write id works) c c' h = elim (Bool-cases (c.id == id && c.writing)) [
  | inl mine ↦
      let e : take works c.queue c ≡ c' = ground arith in
      let (i, r) = take-rest works c.queue c in
      unchanged c c' (rw (← e) i) (λ k. sym r ∙ rw (← e) at k)
        (rw (← e) (take-stream works c.queue c refl))
  | inr other ↦ unchanged c c' (ground arith) (λ r. ground arith) (ground arith)
]
effect-Delivers (close id) c c' h = unchanged c c' (ground arith) (λ r. ground arith) (ground arith)
