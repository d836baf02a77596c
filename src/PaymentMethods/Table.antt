-- ===== src/PaymentMethods/Table.antt =====
-- apps/api-server/internal/services/subscriber_payment.go: what the statements do to the number of a
-- subscriber's default methods.
use text.Mathlib.Text.{◌==◌ as str_eq}
use text.Mathlib.TextEquality.{eq_iff}
use telecom_platform.Base.{
  ℕ, ◌+◌, ◌≡◌, refl, subst, inl, inr, Bool, true, false, ◌&&◌, none, some, List, [], ◌∷◌, String,
  arith, if◌then◌else◌, Bool-cases,
}
use telecom_platform.PaymentMethods.{
  PaymentMethod, find_method, first_other, set_flag, clear_others, delete_method, belongs, is_other,
}

-- The number of a subscriber's default methods.
unfoldable pub defaults : ℕ → List PaymentMethod → ℕ
defaults subscriber [] = 0
defaults subscriber (p ∷ table) =
    (if belongs subscriber p && p.is_default then 1 else 0) + defaults subscriber table

-- The identifiers are a key of the table.
abbrev pub Absent : String → List PaymentMethod → Type 0
Absent id [] = Unit {0}
Absent id (p ∷ table) = (str_eq p.id id ≡ false) × Absent id table

abbrev pub Keyed : List PaymentMethod → Type 0
Keyed [] = Unit {0}
Keyed (p ∷ table) = Absent p.id table × Keyed table

abbrev pub one_if : Bool → ℕ
one_if b = if b then 1 else 0

abbrev pub counts_for : ℕ → PaymentMethod → Bool
counts_for subscriber p = belongs subscriber p && p.is_default

-- Rows without the identifier are left alone.
pub set_flag-Absent :
    (id : String) (b : Bool) (table : List PaymentMethod)
    → Absent id table
    → set_flag id b table ≡ table
unfolding set_flag
set_flag-Absent id b [] h = refl
set_flag-Absent id b (p ∷ table) h = ground (arith, set_flag-Absent id b table h.1)

pub delete_method-Absent :
    (id : String) (table : List PaymentMethod) → Absent id table → delete_method id table ≡ table
unfolding delete_method
delete_method-Absent id [] h = refl
delete_method-Absent id (p ∷ table) h = ground (arith, delete_method-Absent id table h.1)

pub clear_others-Absent :
    (s : ℕ) (id : String) (table : List PaymentMethod)
    → Absent id table
    → defaults s (clear_others s id table) ≡ 0
unfolding clear_others defaults
clear_others-Absent s id [] h = refl
clear_others-Absent s id (p ∷ table) h = ground (arith, clear_others-Absent s id table h.1)

-- The key of the first row, where it is the identifier's.
pub same-Absent :
    (j id : String) (table : List PaymentMethod)
    → str_eq j id ≡ true
    → Absent j table
    → Absent id table
same-Absent j id table e h = subst (λ k. Absent k table) ((eq_iff j id).0 e) h

pub set_flag-defaults :
    (s : ℕ) (id : String) (p : PaymentMethod) (table : List PaymentMethod)
    → Keyed table
    → find_method id table ≡ some p
    → defaults s (set_flag id true table) + one_if (counts_for s p)
      ≡ defaults s table + one_if (belongs s p)
unfolding find_method set_flag defaults
set_flag-defaults s id p [] k f = ground arith
set_flag-defaults s id p (q ∷ table) k f = elim (Bool-cases (str_eq q.id id)) [
  | inl e ↦ ground (arith, set_flag-Absent id true table (same-Absent q.id id table e k.0))
  | inr e ↦ ground (arith, set_flag-defaults s id p table k.1)
]

pub clear_others-defaults :
    (s : ℕ) (id : String) (p : PaymentMethod) (table : List PaymentMethod)
    → Keyed table
    → find_method id table ≡ some p
    → defaults s (clear_others s id table) ≡ one_if (counts_for s p)
unfolding find_method clear_others defaults
clear_others-defaults s id p [] k f = ground arith
clear_others-defaults s id p (q ∷ table) k f = elim (Bool-cases (str_eq q.id id)) [
  | inl e ↦ ground (arith, clear_others-Absent s id table (same-Absent q.id id table e k.0))
  | inr e ↦ ground (arith, clear_others-defaults s id p table k.1)
]

pub delete_method-defaults :
    (s : ℕ) (id : String) (p : PaymentMethod) (table : List PaymentMethod)
    → Keyed table
    → find_method id table ≡ some p
    → defaults s (delete_method id table) + one_if (counts_for s p) ≡ defaults s table
unfolding find_method delete_method defaults
delete_method-defaults s id p [] k f = ground arith
delete_method-defaults s id p (q ∷ table) k f = elim (Bool-cases (str_eq q.id id)) [
  | inl e ↦ ground (arith, delete_method-Absent id table (same-Absent q.id id table e k.0))
  | inr e ↦ ground (arith, delete_method-defaults s id p table k.1)
]

-- Neither update changes an identifier.
pub clear_others-find :
    (s : ℕ) (id : String) (table : List PaymentMethod)
    → find_method id (clear_others s id table) ≡ find_method id table
unfolding find_method clear_others
clear_others-find s id [] = refl
clear_others-find s id (q ∷ table) = ground (arith, clear_others-find s id table)

pub Absent-clear_others :
    (s : ℕ) (id j : String) (table : List PaymentMethod)
    → Absent j table
    → Absent j (clear_others s id table)
unfolding clear_others
Absent-clear_others s id j [] h = tt
Absent-clear_others s id j (q ∷ table) h =
    (ground (arith, h.0), Absent-clear_others s id j table h.1)

pub Keyed-clear_others :
    (s : ℕ) (id : String) (table : List PaymentMethod)
    → Keyed table
    → Keyed (clear_others s id table)
unfolding clear_others
Keyed-clear_others s id [] k = tt
Keyed-clear_others s id (q ∷ table) k = elim (Bool-cases (is_other s id q)) [
  | inl e ↦ simp e (Absent-clear_others s id q.id table k.0, Keyed-clear_others s id table k.1)
  | inr e ↦ simp e (Absent-clear_others s id q.id table k.0, Keyed-clear_others s id table k.1)
]

pub Absent-set_flag :
    (id j : String) (b : Bool) (table : List PaymentMethod)
    → Absent j table
    → Absent j (set_flag id b table)
unfolding set_flag
Absent-set_flag id j b [] h = tt
Absent-set_flag id j b (q ∷ table) h = (ground (arith, h.0), Absent-set_flag id j b table h.1)

pub Keyed-set_flag :
    (id : String) (b : Bool) (table : List PaymentMethod)
    → Keyed table
    → Keyed (set_flag id b table)
unfolding set_flag
Keyed-set_flag id b [] k = tt
Keyed-set_flag id b (q ∷ table) k = elim (Bool-cases (str_eq q.id id)) [
  | inl e ↦ simp e (Absent-set_flag id q.id b table k.0, Keyed-set_flag id b table k.1)
  | inr e ↦ simp e (Absent-set_flag id q.id b table k.0, Keyed-set_flag id b table k.1)
]

pub set_flag-find :
    (id j : String) (b : Bool) (table : List PaymentMethod)
    → str_eq id j ≡ false
    → find_method j (set_flag id b table) ≡ find_method j table
unfolding find_method set_flag
set_flag-find id j b [] ne = refl
set_flag-find id j b (q ∷ table) ne =
    ground (arith, eq_iff q.id id, eq_iff q.id j, eq_iff id j, set_flag-find id j b table ne)

pub find_method-Absent :
    (j : String) (table : List PaymentMethod) → Absent j table → find_method j table ≡ none
unfolding find_method
find_method-Absent j [] h = refl
find_method-Absent j (q ∷ table) h = ground (arith, find_method-Absent j table h.1)

-- The alternative is a row of the subscriber with another identifier.
pub first_other-found :
    (s : ℕ) (id : String) (r : PaymentMethod) (table : List PaymentMethod)
    → Keyed table
    → first_other s id table ≡ some r
    → (find_method r.id table ≡ some r) × (is_other s id r ≡ true)
unfolding first_other find_method
first_other-found s id r [] k f = ground arith
first_other-found s id r (q ∷ table) k f = elim (Bool-cases (is_other s id q)) [
  | inl e ↦ ground (arith, eq_iff r.id r.id)
  | inr e ↦
      let rest = first_other-found s id r table k.1 (ground arith) in
      (
        elim (Bool-cases (str_eq q.id r.id)) [
          | inl same ↦
              ground (
                arith,
                rest.0,
                find_method-Absent r.id table (same-Absent q.id r.id table same k.0),
              )
          | inr ne ↦ ground (arith, rest.0)
        ],
        rest.1,
      )
]
