-- ===== src/Window.antt =====
-- What a sliding-window limiter promises, for the limiters of apps/api-server/internal/middleware
-- and apps/carrier-connector/internal/tenant: a request is allowed when fewer than the limit of all
-- the requests allowed before it lie in the window that ends at it. The limiters forget what has
-- left the window; the specification here forgets nothing.
use telecom_platform.Base.{
  ℕ, ◌+◌, ◌≤◌, ◌≡◌, refl, Bool, List, [], ◌∷◌, ◌++◌, arith, ltb, keep, length, keep-append,
}

-- `now.Sub(t) < window`, which is also `t.After(now.Add(-window))`.
abbrev pub in_window : ℕ → ℕ → ℕ → Bool
in_window window now t = ltb now (t + window)

abbrev pub recent : ℕ → ℕ → List ℕ → List ℕ
recent window now = keep (in_window window now)

module _ (window : ℕ) where
  -- What has left the window at one time is not in it later.
  pub recent-recent :
      (now later : ℕ) (ts : List ℕ)
      → now ≤ later
      → recent window later (recent window now ts) ≡ recent window later ts
  recent-recent now later [] h = refl
  recent-recent now later (t ∷ ts) h = ground (arith, recent-recent now later ts h)

  -- Two lists that agree on every window from `last` on: one may have forgotten more.
  abbrev pub Agree : ℕ → List ℕ → List ℕ → Type 0
  Agree last kept all =
      (later : ℕ) → last ≤ later → recent window later kept ≡ recent window later all

  pub Agree-recent :
      (last now : ℕ) (kept all : List ℕ)
      → last ≤ now
      → Agree last kept all
      → Agree now (recent window now kept) all
  Agree-recent last now kept all h a later g =
      ground (arith, recent-recent now later kept g, a later)

  pub Agree-append :
      (last : ℕ) (kept all more : List ℕ)
      → Agree last kept all
      → Agree last (kept ++ more) (all ++ more)
  Agree-append last kept all more a later g = ground (
    arith,
    a later g,
    keep-append (in_window window later) kept more,
    keep-append (in_window window later) all more,
  )

  -- The window is never fuller later, when nothing is added.
  pub length-recent-later :
      (now later : ℕ) (ts : List ℕ)
      → now ≤ later
      → length (recent window later ts) ≤ length (recent window now ts)
  length-recent-later now later [] h = omega arith
  length-recent-later now later (t ∷ ts) h = ground (arith, length-recent-later now later ts h)
