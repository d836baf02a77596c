-- ===== src/Base/Maps.antt =====
-- A Go map with string keys, as an association list: the order of the list is one order in which
-- `range` may visit the entries. The laws below are about lookups, which no order changes.
use Prim.Native.Nat.{suc, ◌+◌, ◌≤◌}
use Prim.Native.String.{String}
use mathlib.Core.Path.{◌≡◌, refl, sym, subst, ◌∙◌}
use mathlib.Core.Logic.{inl, inr}
use mathlib.Core.Bool.{Bool, false}
use mathlib.Core.Option.{Option, none, some}
use mathlib.Core.List.{List, [], ◌∷◌}
use native.Mathlib.Omega.{arith}
use text.Mathlib.Text.{◌==◌ as str_eq}
use text.Mathlib.TextEquality.{eq_iff}
use text.Mathlib.TextPositions.{eq_refl}
use telecom_platform.Base.Tests.{if◌then◌else◌, Bool-cases}
use telecom_platform.Base.Lists.{length}

abbrev pub Dict {ℓ} : Type ℓ → Type ℓ
Dict V = List (String × V)

module _ {ℓ} {V : Type ℓ} where
  -- `v, ok := m[k]`.
  unfoldable pub lookup : String → Dict V → Option V
  lookup k [] = none
  lookup k ((j, v) ∷ m) = if str_eq j k then some v else lookup k m

  -- `m[k] = v`.
  unfoldable pub insert : String → V → Dict V → Dict V
  insert k v [] = (k, v) ∷ []
  insert k v ((j, w) ∷ m) = if str_eq j k then (k, v) ∷ m else (j, w) ∷ insert k v m

  -- `delete(m, k)`.
  unfoldable pub delete : String → Dict V → Dict V
  delete k [] = []
  delete k ((j, w) ∷ m) = let rest = delete k m in if str_eq j k then rest else (j, w) ∷ rest

  -- The loop `for k, v := range m { if p k v { delete(m, k) } }`.
  unfoldable pub delete_if : (String → V → Bool) → Dict V → Dict V
  delete_if p [] = []
  delete_if p ((j, w) ∷ m) = let rest = delete_if p m in if p j w then rest else (j, w) ∷ rest

  pub lookup-insert :
      (key other : String) (new : V) (entries : Dict V)
      → lookup other (insert key new entries)
        ≡ (if str_eq key other then some new else lookup other entries)
  unfolding lookup insert
  lookup-insert key other new [] = refl
  lookup-insert key other new ((i, old) ∷ entries) =
      ground
        (arith, eq_iff i key, eq_iff i other, eq_iff key other, lookup-insert key other new entries)

  pub lookup-insert_self : (k : String) (v : V) (m : Dict V) → lookup k (insert k v m) ≡ some v
  lookup-insert_self k v m = simp (lookup-insert, eq_refl)

  pub lookup-delete :
      (k j : String) (m : Dict V)
      → lookup j (delete k m) ≡ (if str_eq k j then none else lookup j m)
  unfolding lookup delete
  lookup-delete k j [] = ground arith
  lookup-delete k j ((i, w) ∷ m) =
      ground (arith, eq_iff k j, eq_iff i k, eq_iff i j, lookup-delete k j m)

  -- The keys are distinct, as those of a Go map are.
  abbrev pub Fresh : String → Dict V → Type ℓ
  Fresh k [] = Unit
  Fresh k ((j, w) ∷ m) = (str_eq j k ≡ false) × Fresh k m

  abbrev pub IsMap : Dict V → Type ℓ
  IsMap [] = Unit
  IsMap ((j, w) ∷ m) = Fresh j m × IsMap m

  pub lookup-Fresh : (k : String) (m : Dict V) → Fresh k m → lookup k m ≡ none
  unfolding lookup
  lookup-Fresh k [] h = refl
  lookup-Fresh k ((j, w) ∷ m) h = ground (arith, lookup-Fresh k m h.1)

  pub length-insert : (k : String) (v : V) (m : Dict V) → length (insert k v m) ≤ length m + 1
  unfolding insert
  length-insert k v [] = omega arith
  length-insert k v ((j, w) ∷ m) = ground (arith, length-insert k v m)

  pub length-insert_old :
      (k : String) (v w : V) (m : Dict V) → lookup k m ≡ some w → length (insert k v m) ≡ length m
  unfolding insert lookup
  length-insert_old k v w [] h = ground arith
  length-insert_old k v w ((j, u) ∷ m) h = ground (arith, length-insert_old k v w m)

  pub length-insert_new :
      (k : String) (v : V) (m : Dict V) → lookup k m ≡ none → length (insert k v m) ≡ length m + 1
  unfolding insert lookup
  length-insert_new k v [] h = omega arith
  length-insert_new k v ((j, u) ∷ m) h = ground (arith, length-insert_new k v m)

  pub length-delete-le : (k : String) (m : Dict V) → length (delete k m) ≤ length m
  unfolding delete
  length-delete-le k [] = omega arith
  length-delete-le k ((j, w) ∷ m) = ground (arith, length-delete-le k m)

  -- Deleting a key that is there makes the map smaller.
  pub length-delete-lt :
      (k : String) (v : V) (m : Dict V) → lookup k m ≡ some v → suc (length (delete k m)) ≤ length m
  unfolding lookup delete
  length-delete-lt k v [] h = ground arith
  length-delete-lt k v ((j, w) ∷ m) h = ground (arith, length-delete-lt k v m, length-delete-le k m)

  pub Fresh-insert :
      (k j : String) (v : V) (m : Dict V) → str_eq k j ≡ false → Fresh j m → Fresh j (insert k v m)
  unfolding insert
  Fresh-insert k j v [] n h = (n, tt)
  Fresh-insert k j v ((i, w) ∷ m) n h = ground (arith, Fresh-insert k j v m n h.1)

  pub insert-IsMap : (k : String) (v : V) (m : Dict V) → IsMap m → IsMap (insert k v m)
  unfolding insert
  insert-IsMap k v [] h = (tt, tt)
  insert-IsMap k v ((j, w) ∷ m) h =
      ground (arith, eq_iff j k, eq_iff k j, insert-IsMap k v m h.1, Fresh-insert k j v m)

  pub Fresh-delete_if :
      (p : String → V → Bool) (j : String) (m : Dict V) → Fresh j m → Fresh j (delete_if p m)
  unfolding delete_if
  Fresh-delete_if p j [] h = tt
  Fresh-delete_if p j ((i, w) ∷ m) h = ground (arith, Fresh-delete_if p j m h.1)

  pub delete_if-IsMap : (p : String → V → Bool) (m : Dict V) → IsMap m → IsMap (delete_if p m)
  unfolding delete_if
  delete_if-IsMap p [] h = tt
  delete_if-IsMap p ((j, w) ∷ m) h =
      ground (arith, delete_if-IsMap p m h.1, Fresh-delete_if p j m h.0)

  -- What is left of an entry after the loop.
  abbrev pub unless : (V → Bool) → Option V → Option V
  unless p none = none
  unless p (some v) = if p v then none else some v

  pub lookup-delete_if :
      (p : String → V → Bool) (k : String) (m : Dict V)
      → IsMap m
      → lookup k (delete_if p m) ≡ unless (p k) (lookup k m)
  unfolding lookup delete_if
  lookup-delete_if p k [] h = refl
  lookup-delete_if p k ((j, w) ∷ m) h = ground (
    arith,
    eq_iff j k,
    lookup-delete_if p k m h.1,
    lookup-Fresh j m h.0,
    lookup-Fresh j (delete_if p m) (Fresh-delete_if p j m h.0),
  )

-- What holds of every value of a map.
module _ {ℓ κ} {V : Type ℓ} (P : V → Type κ) where
  abbrev pub Every : Dict V → Type (ℓ ⊔ κ)
  Every m = (k : String) (v : V) → lookup k m ≡ some v → P v

  pub insert-Every : (k : String) (v : V) (m : Dict V) → Every m → P v → Every (insert k v m)
  insert-Every k v m all p j w e = elim (Bool-cases (str_eq k j)) [
    | inl same ↦ let q : v ≡ w = ground (arith, lookup-insert k j v m) in subst P q p
    | inr ne ↦ all j w (rw (lookup-insert, ne) at e)
  ]

  pub delete_if-Every :
      (gone : String → V → Bool) (m : Dict V) → IsMap m → Every m → Every (delete_if gone m)
  delete_if-Every gone m u all j w e =
      kept (lookup j m) refl (sym (lookup-delete_if gone j m u) ∙ e)
    where
      kept : (found : Option V) → lookup j m ≡ found → unless (gone j) found ≡ some w → P w
      kept none f h = cc
      kept (some x) f h = elim (Bool-cases (gone j x)) [
        | inl g ↦ cc (rw g at h)
        | inr g ↦ let q : x ≡ w = ground arith in subst P q (all j x f)
      ]

  pub delete-Every : (k : String) (m : Dict V) → Every m → Every (delete k m)
  delete-Every k m all j w e = elim (Bool-cases (str_eq k j)) [
    | inl same ↦ let h = rw (lookup-delete, same) at e in cc
    | inr ne ↦ all j w (rw (lookup-delete, ne) at e)
  ]

module _ {ℓ} {V : Type ℓ} where
  Fresh-delete : (k j : String) (m : Dict V) → Fresh j m → Fresh j (delete k m)
  unfolding delete
  Fresh-delete k j [] h = tt
  Fresh-delete k j ((i, w) ∷ m) h = ground (arith, Fresh-delete k j m h.1)

  pub delete-IsMap : (k : String) (m : Dict V) → IsMap m → IsMap (delete k m)
  unfolding delete
  delete-IsMap k [] h = tt
  delete-IsMap k ((j, w) ∷ m) h = ground (arith, delete-IsMap k m h.1, Fresh-delete k j m h.0)

  pub length-delete_if-le : (p : String → V → Bool) (m : Dict V) → length (delete_if p m) ≤ length m
  unfolding delete_if
  length-delete_if-le p [] = omega arith
  length-delete_if-le p ((j, w) ∷ m) = ground (arith, length-delete_if-le p m)

  pub delete-insert : (k : String) (v : V) (m : Dict V) → delete k (insert k v m) ≡ delete k m
  unfolding delete insert
  delete-insert k v [] = ground (arith, eq_iff k k)
  delete-insert k v ((j, w) ∷ m) = ground (arith, eq_iff k k, delete-insert k v m)
