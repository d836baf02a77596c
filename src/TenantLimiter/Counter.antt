-- ===== src/TenantLimiter/Counter.antt =====
-- apps/carrier-connector/internal/tenant/rate_limiter.go: one `SlidingWindowCounter`, against
-- the specification that remembers every request that it recorded.
use telecom_platform.Base.{
  ℕ, ◌≤◌, ◌≡◌, refl, ap, Bool, List, [], ◌∷◌, ◌++◌, arith, ltb, length, if◌then◌else◌, keep-append,
  length-append, Bool-cases, inl, inr,
}
use mathlib.Core.List.{append_assoc, append-nil}
use telecom_platform.Window.{
  recent, in_window, length-recent-later, Agree, Agree-recent, Agree-append,
}
use telecom_platform.TenantLimiter.{SlidingWindowCounter, new_sliding_window_counter, allow, count}

-- Calls of `Allow` at the times that they read.
unfoldable pub run : ℕ → List ℕ → SlidingWindowCounter → SlidingWindowCounter × List Bool
run burst [] swc = (swc, [])
run burst (now ∷ times) swc =
    let (swc', answer) = allow burst now swc in
    let (end, answers) = run burst times swc' in (end, answer ∷ answers)

abbrev pub Ordered : ℕ → List ℕ → Type 0
Ordered last [] = Unit {0}
Ordered last (now ∷ times) = (last ≤ now) × Ordered now times

abbrev pub end_time : ℕ → List ℕ → ℕ
end_time last [] = last
end_time last (now ∷ times) = end_time now times

-- The times at which requests were let through.
abbrev pub granted : List ℕ → List Bool → List ℕ
granted [] answers = []
granted (now ∷ times) [] = []
granted (now ∷ times) (a ∷ answers) =
    let rest = granted times answers in if a then now ∷ rest else rest

-- What is known of a counter after requests were let through at the times `all`.
pub record Follows (window limit last : ℕ) (all : List ℕ) (swc : SlidingWindowCounter)
    : Type 0 where
  pub window_eq : swc.window ≡ window
  pub limit_eq : swc.max_count ≡ limit
  pub agree : Agree window last swc.requests all
  pub bounded : length (recent window last all) ≤ limit

module _ (window limit burst last now : ℕ) (all : List ℕ) (swc : SlidingWindowCounter)
    (h : last ≤ now) (f : Follows window limit last all swc) where
  abbrev answer : Bool
  answer = ltb (length (recent window now all)) limit

  allow-answer : (allow burst now swc).1 ≡ answer
  unfolding allow
  allow-answer = ground (arith, f.agree now h)

  allow-Follows :
      Follows window limit now (if answer then all ++ now ∷ [] else all) (allow burst now swc).0
  unfolding allow
  allow-Follows = record {
    window_eq = ground arith;
    limit_eq = ground arith;
    agree = λ later g. ground (
      arith,
      f.agree now h,
      Agree-recent window last now swc.requests all h f.agree later g,
      Agree-append window now (recent window now swc.requests) all (now ∷ [])
          (Agree-recent window last now swc.requests all h f.agree) later g,
    );
    bounded = ground (
      arith,
      length-recent-later window last now all h,
      keep-append (in_window window now) all (now ∷ []),
      length-append (recent window now all) (recent window now (now ∷ [])),
    );
  }

run-Follows :
    (window limit burst last : ℕ) (times all : List ℕ) (swc : SlidingWindowCounter)
    → Ordered last times
    → Follows window limit last all swc
    → Follows window limit
        (end_time last times)
        (all ++ granted times (run burst times swc).1)
        (run burst times swc).0
unfolding run
run-Follows window limit burst last [] all swc o f = rw (append-nil all) f
run-Follows window limit burst last (now ∷ times) all swc o f =
    let step = allow-Follows window limit burst last now all swc o.0 f in
    let same = allow-answer window limit burst last now all swc o.0 f in
    elim (Bool-cases (answer window limit burst last now all swc o.0 f)) [
      | inl e ↦
          let f' : Follows window limit now (all ++ now ∷ []) (allow burst now swc).0 =
            rw e at step in
          rw
            (
              same,
              e,
              ← append_assoc all (now ∷ [])
                  (granted times (run burst times (allow burst now swc).0).1),
            )
            (run-Follows window limit burst now times (all ++ now ∷ []) (allow burst now swc).0 o.1
              f')
      | inr e ↦
          let f' : Follows window limit now all (allow burst now swc).0 = rw e at step in
          rw (same, e) (run-Follows window limit burst now times all (allow burst now swc).0 o.1 f')
    ]

-- For every sequence of times at which a new counter is asked, in order: the requests that it lets
-- through never number more than its limit in the window that ends at the last time or later; and
-- `Count` then gives exactly how many are in the window.
pub counter_bounded :
    (window limit burst now : ℕ) (times : List ℕ)
    → Ordered 0 times
    → end_time 0 times ≤ now
    → let end = run burst times (new_sliding_window_counter window limit) in
      (length (recent window now (granted times end.1)) ≤ limit)
      × (count now end.0 ≡ length (recent window now (granted times end.1)))
unfolding count new_sliding_window_counter
counter_bounded window limit burst now times o h =
    let new = new_sliding_window_counter window limit in
    let f : Follows window limit 0 [] new = record {
      window_eq = refl;
      limit_eq = refl;
      agree = λ later g. refl;
      bounded = omega arith;
    } in
    let end = run-Follows window limit burst 0 times [] new o f in
    (
      omega (
        arith,
        end.bounded,
        length-recent-later window (end_time 0 times) now (granted times (run burst times new).1) h,
      ),
      rw (end.window_eq) (ap length (end.agree now h)),
    )
