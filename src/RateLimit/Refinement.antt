-- ===== src/RateLimit/Refinement.antt =====
-- apps/api-server/internal/middleware/ratelimit.go against the sliding-window specification: the
-- requests allowed so far are remembered for ever, and a request is allowed when fewer than the
-- limit of those of its key are in the window that ends now.
use text.Mathlib.Text.{◌==◌ as str_eq}
use text.Mathlib.TextEquality.{eq_iff}
use mathlib.Core.List.{append-nil, append_assoc}
use telecom_platform.Base.{
  ◌&&◌, sym, ℕ, ◌≤◌, ◌≡◌, refl, Bool, true, false, List, [], ◌∷◌, ◌++◌, String, arith, ltb, length,
  if◌then◌else◌, Dict, lookup, insert, inl, inr, lookup-insert, lookup-insert_self, keep-append,
  length-append, Option-cases,
}
use telecom_platform.Window.{
  recent, in_window, length-recent-later, Agree, Agree-recent, Agree-append,
}
use telecom_platform.RateLimit.{SimpleRateLimiter, new_simple_rate_limiter, allow, slice}

-- The requests of a key.
abbrev pub of_key : String → Dict (List ℕ) → List ℕ
of_key key d = slice (lookup key d)

module _ (now : ℕ) (key : String) (r : SimpleRateLimiter) where
  abbrev kept : List ℕ
  kept = recent r.window now (of_key key r.requests)

  allow-answer : (allow now key r).1 ≡ ltb (length kept) r.limit
  unfolding allow
  allow-answer = elim (Option-cases (lookup key r.requests)) [
    | inl e ↦ ground arith
    | inr (ts, e) ↦ ground (arith, lookup-insert_self key (recent r.window now ts) r.requests)
  ]

  allow-of_key :
      (j : String)
      → of_key j (allow now key r).0.requests ≡ (
          if str_eq key j
          then (if ltb (length kept) r.limit then kept ++ now ∷ [] else kept)
          else of_key j r.requests)
  unfolding allow
  allow-of_key j = elim (Option-cases (lookup key r.requests)) [
    | inl e ↦ ground (arith, eq_iff key j, lookup-insert key j (now ∷ []) r.requests)
    | inr (ts, e) ↦ ground (
      arith,
      eq_iff key j,
      lookup-insert_self key (recent r.window now ts) r.requests,
      lookup-insert key j (recent r.window now ts) r.requests,
      lookup-insert key j (recent r.window now ts ++ now ∷ [])
          (insert key (recent r.window now ts) r.requests),
    )
  ]

  allow-settings : ((allow now key r).0.limit ≡ r.limit) × ((allow now key r).0.window ≡ r.window)
  unfolding allow
  allow-settings = ground arith

-- Calls in the order in which they take the mutex, each with the time that it reads.
abbrev pub Ordered : ℕ → List (ℕ × String) → Type 0
Ordered last [] = Unit {0}
Ordered last ((now, key) ∷ calls) = (last ≤ now) × Ordered now calls

module _ (limit window : ℕ) where
  -- The specification, over all that was allowed so far.
  unfoldable pub spec_allow : ℕ → String → Dict (List ℕ) → Dict (List ℕ) × Bool
  spec_allow now key all =
      if ltb (length (recent window now (of_key key all))) limit
      then (insert key (of_key key all ++ now ∷ []) all, true)
      else (all, false)

  -- The limiter and the record agree, for every key, on the windows from `last` on.
  pub record Refines (last : ℕ) (r : SimpleRateLimiter) (all : Dict (List ℕ)) : Type 0 where
    pub limit_eq : r.limit ≡ limit
    pub window_eq : r.window ≡ window
    pub agree : (key : String) → Agree window last (of_key key r.requests) (of_key key all)

  module _ (last now : ℕ) (key : String) (r : SimpleRateLimiter) (all : Dict (List ℕ))
      (h : last ≤ now) (f : Refines last r all) where
    same_kept : recent window now (of_key key r.requests) ≡ recent window now (of_key key all)
    same_kept = f.agree key now h

    -- The limiter answers what the specification answers.
    allow-refines : (allow now key r).1 ≡ (spec_allow now key all).1
    unfolding spec_allow
    allow-refines = ground (arith, allow-answer now key r, f.limit_eq, f.window_eq, same_kept)

    Agree-after :
        (j : String)
        → Agree window now
            (of_key j (allow now key r).0.requests)
            (of_key j (spec_allow now key all).0)
    unfolding spec_allow
    Agree-after j later g = ground (
      arith,
      eq_iff key j,
      allow-of_key now key r j,
      f.limit_eq,
      f.window_eq,
      same_kept,
      lookup-insert key j (of_key key all ++ now ∷ []) all,
      Agree-recent window last now (of_key j r.requests) (of_key j all) h (f.agree j) later g,
      f.agree j later,
      Agree-append window now (recent window now (of_key j r.requests)) (of_key j all) (now ∷ [])
          (Agree-recent window last now (of_key j r.requests) (of_key j all) h (f.agree j)) later g,
    )

  allow-Refines :
      (last now : ℕ) (key : String) (r : SimpleRateLimiter) (all : Dict (List ℕ))
      → last ≤ now
      → Refines last r all
      → Refines now (allow now key r).0 (spec_allow now key all).0
  allow-Refines last now key r all h f = record {
    limit_eq = omega (arith, allow-settings now key r, f.limit_eq);
    window_eq = omega (arith, allow-settings now key r, f.window_eq);
    agree = Agree-after last now key r all h f;
  }

  unfoldable pub run_spec : List (ℕ × String) → Dict (List ℕ) → Dict (List ℕ) × List Bool
  run_spec [] all = (all, [])
  run_spec ((now, key) ∷ calls) all =
      let (all', answer) = spec_allow now key all in
      let (end, answers) = run_spec calls all' in (end, answer ∷ answers)

  -- No key ever has more than `limit` allowed requests in one window.
  abbrev pub IsBounded : ℕ → Dict (List ℕ) → Type 0
  IsBounded now all = (key : String) → length (recent window now (of_key key all)) ≤ limit

  spec_allow-IsBounded :
      (last now : ℕ) (key : String) (all : Dict (List ℕ))
      → last ≤ now
      → IsBounded last all
      → IsBounded now (spec_allow now key all).0
  unfolding spec_allow
  spec_allow-IsBounded last now key all h b j = ground (
    arith,
    eq_iff key j,
    lookup-insert key j (of_key key all ++ now ∷ []) all,
    b j,
    length-recent-later window last now (of_key j all) h,
    keep-append (in_window window now) (of_key j all) (now ∷ []),
    length-append (recent window now (of_key j all)) (recent window now (now ∷ [])),
  )

unfoldable pub run : List (ℕ × String) → SimpleRateLimiter → SimpleRateLimiter × List Bool
run [] r = (r, [])
run ((now, key) ∷ calls) r =
    let (r', answer) = allow now key r in
    let (end, answers) = run calls r' in (end, answer ∷ answers)

run-spec :
    (limit window last : ℕ) (calls : List (ℕ × String)) (r : SimpleRateLimiter)
    (all : Dict (List ℕ))
    → Ordered last calls
    → Refines limit window last r all
    → (run calls r).1 ≡ (run_spec limit window calls all).1
unfolding run run_spec
run-spec limit window last [] r all o f = refl
run-spec limit window last ((now, key) ∷ calls) r all o f = ground (
  arith,
  allow-refines limit window last now key r all o.0 f,
  run-spec limit window now calls (allow now key r).0 (spec_allow limit window now key all).0 o.1
      (allow-Refines limit window last now key r all o.0 f),
)

new-Refines : (limit window : ℕ) → Refines limit window 0 (new_simple_rate_limiter limit window) []
unfolding new_simple_rate_limiter lookup
new-Refines limit window = record { limit_eq = refl; window_eq = refl; agree = λ key later g. refl }

-- A limiter answers every sequence of calls, in time order and over any keys, as the specification
-- does that remembers every request allowed: forgetting what has left the window changes nothing.
pub run-refines :
    (limit window : ℕ) (calls : List (ℕ × String))
    → Ordered 0 calls
    → (run calls (new_simple_rate_limiter limit window)).1 ≡ (run_spec limit window calls []).1
run-refines limit window calls o =
    run-spec limit window 0 calls (new_simple_rate_limiter limit window) [] o
      (new-Refines limit window)

-- The times at which calls with a key were let through.
abbrev pub granted : String → List (ℕ × String) → List Bool → List ℕ
granted key [] answers = []
granted key ((now, k) ∷ calls) [] = []
granted key ((now, k) ∷ calls) (a ∷ answers) =
    let rest = granted key calls answers in if a && str_eq k key then now ∷ rest else rest

abbrev pub end_time : ℕ → List (ℕ × String) → ℕ
end_time last [] = last
end_time last ((now, k) ∷ calls) = end_time now calls

module _ (limit window : ℕ) (key : String) where
  run_spec-granted :
      (calls : List (ℕ × String)) (all : Dict (List ℕ))
      → of_key key (run_spec limit window calls all).0
        ≡ of_key key all ++ granted key calls (run_spec limit window calls all).1
  unfolding run_spec spec_allow
  run_spec-granted [] all = sym (append-nil (of_key key all))
  run_spec-granted ((now, k) ∷ calls) all = ground (
    arith,
    eq_iff k key,
    run_spec-granted calls (spec_allow limit window now k all).0,
    lookup-insert k key (of_key k all ++ now ∷ []) all,
    append_assoc (of_key key all) (now ∷ [])
        (granted key calls (run_spec limit window calls (spec_allow limit window now k all).0).1),
  )

  run_spec-IsBounded :
      (last : ℕ) (calls : List (ℕ × String)) (all : Dict (List ℕ))
      → Ordered last calls
      → IsBounded limit window last all
      → IsBounded limit window (end_time last calls) (run_spec limit window calls all).0
  unfolding run_spec
  run_spec-IsBounded last [] all o b = b
  run_spec-IsBounded last ((now, k) ∷ calls) all o b =
      run_spec-IsBounded now calls (spec_allow limit window now k all).0 o.1
        (spec_allow-IsBounded limit window last now k all o.0 b)

  -- Over every sequence of calls in time order, at every time from the last call on, at most
  -- `limit` of the requests with one key that were let through are in the window ending then.
  pub granted_bounded :
      (calls : List (ℕ × String)) (now : ℕ)
      → Ordered 0 calls
      → end_time 0 calls ≤ now
      → length (
          recent window now
            (granted key calls (run calls (new_simple_rate_limiter limit window)).1))
        ≤ limit
  unfolding lookup
  granted_bounded calls now o h = ground (
    arith,
    run-refines limit window calls o,
    run_spec-granted calls [],
    run_spec-IsBounded 0 calls [] o (λ j. omega arith) key,
    length-recent-later window (end_time 0 calls) now
        (granted key calls (run_spec limit window calls []).1) h,
  )

-- A request that is refused is not recorded: with a full window the limiter forgets what has left
-- the window, and nothing else changes for any key.
pub refused_unrecorded :
    (now : ℕ) (key j : String) (r : SimpleRateLimiter)
    → (allow now key r).1 ≡ false
    → of_key j (allow now key r).0.requests
      ≡ (if str_eq key j then recent r.window now (of_key j r.requests) else of_key j r.requests)
refused_unrecorded now key j r h =
    ground (arith, eq_iff key j, allow-answer now key r, allow-of_key now key r j)
