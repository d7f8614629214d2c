-- ===== src/Capability/Sorted.antt =====
-- The order in which the records of a resolution stand.
use mathlib.Core.List.{Perm}
use mathlib.Core.List.Perm
use presign.Prelude.{
  ℕ, ◌≡◌, true, false, List, [], ◌∷◌, ◌≤◌, arith, length, All, Bool-cases, inl, inr,
}
use presign.Capability.{DeploymentRecord, before, effective_lag, insert, sort}

-- Every record may stand before all that follow it, by the comparison of the code.
abbrev InOrder : ℕ → List DeploymentRecord → Type 0
InOrder now [] = Unit
InOrder now (r ∷ rs) = All (λ x. before now r x ≡ true) rs × InOrder now rs

before_total : (now : ℕ) (a b : DeploymentRecord) → before now a b ≡ false → before now b a ≡ true
unfolding before
before_total now a b h = ground arith

before_trans :
    (now : ℕ) (a b c : DeploymentRecord)
    → before now a b ≡ true
    → before now b c ≡ true
    → before now a c ≡ true
unfolding before
before_trans now a b c h k = ground arith

All-before :
    (now : ℕ) (a b : DeploymentRecord) (rs : List DeploymentRecord)
    → before now a b ≡ true
    → All (λ x. before now b x ≡ true) rs
    → All (λ x. before now a x ≡ true) rs
All-before now a b [] h k = tt
All-before now a b (r ∷ rs) h k = (before_trans now a b r h k.0, All-before now a b rs h k.1)

All-insert :
    (now : ℕ) (a r : DeploymentRecord) (rs : List DeploymentRecord)
    → before now a r ≡ true
    → All (λ x. before now a x ≡ true) rs
    → All (λ x. before now a x ≡ true) (insert now r rs)
unfolding insert
All-insert now a r [] h k = (h, tt)
All-insert now a r (x ∷ rs) h k = elim (Bool-cases (before now r x)) [
  | inl first ↦ rw (first, insert) (h, k)
  | inr later ↦ rw (later, insert) (k.0, All-insert now a r rs h k.1)
]

insert-InOrder :
    (now : ℕ) (r : DeploymentRecord) (rs : List DeploymentRecord)
    → InOrder now rs
    → InOrder now (insert now r rs)
unfolding insert
insert-InOrder now r [] s = (tt, tt)
insert-InOrder now r (x ∷ rs) s = elim (Bool-cases (before now r x)) [
  | inl first ↦ rw (first, insert) ((first, All-before now r x rs first s.0), s)
  | inr later ↦
      rw (later, insert)
        (All-insert now x r rs (before_total now r x later) s.0, insert-InOrder now r rs s.1)
]

sort-InOrder : (now : ℕ) (rs : List DeploymentRecord) → InOrder now (sort now rs)
unfolding sort
sort-InOrder now [] = tt
sort-InOrder now (r ∷ rs) = insert-InOrder now r (sort now rs) (sort-InOrder now rs)

insert-perm :
    (now : ℕ) (r : DeploymentRecord) (rs : List DeploymentRecord) → Perm (insert now r rs) (r ∷ rs)
unfolding insert
insert-perm now r [] = Perm.refl (r ∷ [])
insert-perm now r (x ∷ rs) = elim (Bool-cases (before now r x)) [
  | inl first ↦ rw (first, insert) (Perm.refl (r ∷ x ∷ rs))
  | inr later ↦
      rw (later, insert) (Perm.trans (Perm.cons x (insert-perm now r rs)) (Perm.swap r x rs))
]

pub sort-perm : (now : ℕ) (rs : List DeploymentRecord) → Perm (sort now rs) rs
unfolding sort
sort-perm now [] = Perm.refl []
sort-perm now (r ∷ rs) =
    Perm.trans (insert-perm now r (sort now rs)) (Perm.cons r (sort-perm now rs))

-- Fresher, or as fresh and of no narrower coverage.
abbrev pub IsAhead : ℕ → DeploymentRecord → DeploymentRecord → Type 0
IsAhead now a b =
    (effective_lag a now ≤ effective_lag b now)
    × (effective_lag a now ≡ effective_lag b now
        → length b.conformance.answers_fields ≤ length a.conformance.answers_fields)

-- Freshest first, then the widest coverage.
abbrev pub IsSorted : ℕ → List DeploymentRecord → Type 0
IsSorted now [] = Unit
IsSorted now (r ∷ rs) = All (λ x. IsAhead now r x) rs × IsSorted now rs

before-IsAhead : (now : ℕ) (a b : DeploymentRecord) → before now a b ≡ true → IsAhead now a b
unfolding before
before-IsAhead now a b h = (ground arith, λ e. ground arith)

All-IsAhead :
    (now : ℕ) (a : DeploymentRecord) (rs : List DeploymentRecord)
    → All (λ x. before now a x ≡ true) rs
    → All (λ x. IsAhead now a x) rs
All-IsAhead now a [] h = tt
All-IsAhead now a (r ∷ rs) h = (before-IsAhead now a r h.0, All-IsAhead now a rs h.1)

InOrder-IsSorted : (now : ℕ) (rs : List DeploymentRecord) → InOrder now rs → IsSorted now rs
InOrder-IsSorted now [] h = tt
InOrder-IsSorted now (r ∷ rs) h = (All-IsAhead now r rs h.0, InOrder-IsSorted now rs h.1)

pub sort-IsSorted : (now : ℕ) (rs : List DeploymentRecord) → IsSorted now (sort now rs)
sort-IsSorted now rs = InOrder-IsSorted now (sort now rs) (sort-InOrder now rs)
