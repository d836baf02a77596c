-- ===== src/Smdp/Attempt.antt =====
-- apps/carrier-connector/internal/smdp/operations.go: one attempt to download from a carrier.
use telecom_platform.Base.{
  ℕ, zero, suc, ◌+◌, ◌≡◌, refl, ◌∙◌, Bool, true, false, Option, none, some, [], String, lookup,
  insert, delete, lookup-insert_self,
}
use telecom_platform.Smdp.{Carrier, CarrierMetrics, SmdpManager}
use telecom_platform.Smdp.Download.{
  Answer, Outcome, returns, unheld, Download, downloaded, record_answer, update_carrier_metrics,
  attempt_download,
}

-- The attempts of a series from `attempt` on, `n` of them, all fail.
abbrev pub Fail : (ℕ → Answer) → ℕ → ℕ → Type 0
Fail answers attempt zero = Unit {0}
Fail answers attempt (suc n) =
    ((e : String) × ((answers attempt).error ≡ some e)) × Fail answers (attempt + 1) n

-- The metrics after `n` answers, from that to `attempt` on.
unfoldable pub recorded : (ℕ → Answer) → ℕ → ℕ → CarrierMetrics → CarrierMetrics
recorded answers attempt zero s = s
recorded answers attempt (suc n) s =
    recorded answers (attempt + 1) n (record_answer (answers attempt) s)

abbrev pub is_error : Option String → Bool
is_error none = false
is_error (some e) = true

-- A carrier with a client and with metrics `s`.
pub record Ready (id : String) (s : CarrierMetrics) (m : SmdpManager) : Type 0 where
  pub client : String
  pub has_client : lookup id m.es2_clients ≡ some client
  pub carrier : Carrier
  pub has_carrier : lookup id m.carriers ≡ some carrier
  pub has_metrics : carrier.metrics ≡ some s

-- What a download that returns does: its result, and the metrics of the carrier.
pub record Returned (id : String) (s : CarrierMetrics) (d : Download) (m : SmdpManager)
    (out : Outcome (SmdpManager × Download)) : Type 0 where
  pub after : SmdpManager
  pub result : out ≡ returns (after, d)
  pub ready : Ready id s after
  pub same_config : after.config ≡ m.config
  pub same_clients : after.es2_clients ≡ m.es2_clients
  pub same_others : delete id after.carriers ≡ delete id m.carriers

abbrev pub noted : String → Answer → Carrier → CarrierMetrics → SmdpManager → SmdpManager
noted id a c s m = record m {
  carriers = insert id (record c { metrics = some (record_answer a s) }) m.carriers;
}

pub noted-Ready :
    (id : String) (a : Answer) (s : CarrierMetrics) (m : SmdpManager) (r : Ready id s m)
    → Ready id (record_answer a s) (noted id a r.carrier s m)
noted-Ready id a s m r = record {
  client = r.client;
  has_client = r.has_client;
  carrier = record r.carrier { metrics = some (record_answer a s) };
  has_carrier =
      lookup-insert_self id (record r.carrier { metrics = some (record_answer a s) }) m.carriers;
  has_metrics = refl;
}

pub update_carrier_metrics-Ready :
    (id : String) (a : Answer) (s : CarrierMetrics) (m : SmdpManager) (r : Ready id s m)
    → update_carrier_metrics unheld id a m ≡ returns (noted id a r.carrier s m)
unfolding update_carrier_metrics
update_carrier_metrics-Ready id a s m r = rw (r.has_carrier) (simp r.has_metrics refl)

module _ (id : String) (answers : ℕ → Answer)
    (next : String → SmdpManager → Outcome (SmdpManager × Download)) where
  pub attempt-succeeds :
      (attempt : ℕ) (s : CarrierMetrics) (m : SmdpManager) (r : Ready id s m)
      → (answers attempt).error ≡ none
      → let a = answers attempt in
        attempt_download unheld id a (lookup id m.es2_clients) next m
        ≡ returns (noted id a r.carrier s m, downloaded id a.execution_status a.status_message [])
  unfolding attempt_download
  attempt-succeeds attempt s m r ok =
      rw (r.has_client, update_carrier_metrics-Ready id (answers attempt) s m r, ok) refl

  pub attempt-fails :
      (attempt : ℕ) (s : CarrierMetrics) (m : SmdpManager) (r : Ready id s m) (e : String)
      → (answers attempt).error ≡ some e
      → attempt_download unheld id (answers attempt) (lookup id m.es2_clients) next m
        ≡ next e (noted id (answers attempt) r.carrier s m)
  unfolding attempt_download
  attempt-fails attempt s m r e bad =
      rw (r.has_client, update_carrier_metrics-Ready id (answers attempt) s m r, bad) refl

-- The same series from the point of view of the metrics before.
pub later-Returned :
    (id : String) (s : CarrierMetrics) (d : Download) (m m' : SmdpManager)
    (out out' : Outcome (SmdpManager × Download))
    → m'.config ≡ m.config
    → m'.es2_clients ≡ m.es2_clients
    → delete id m'.carriers ≡ delete id m.carriers
    → out ≡ out'
    → Returned id s d m' out'
    → Returned id s d m out
later-Returned id s d m m' out out' same clients others step r = record {
  after = r.after;
  result = step ∙ r.result;
  ready = r.ready;
  same_config = r.same_config ∙ same;
  same_clients = r.same_clients ∙ clients;
  same_others = r.same_others ∙ others;
}
