-- ===== src/Origin/Bisect.antt =====
-- Where the bisection ends.
use mathlib.Core.Logic.{dif_pos, dif_neg}
use mathlib.Core.WellFounded.{Acc}
use native.Mathlib.Decide.{dec_lt}
use native.Mathlib.Bridge.{le_prop}
use presign.Prelude.{
  ℕ, ◌+◌, ◌-◌, ◌≤◌, ◌<◌, ◌≡◌, refl, sym, ap, ◌∙◌, Bool, true, false, inl, inr, ◌⊎◌, arith,
}
use presign.Types.{Settled, value, rejected, Settled-cases}
use presign.Origin.{bisect, middle}

-- The block before the first one with code lacks it.
abbrev pub IsEdge : (ℕ → Settled Bool) → (low high first : ℕ) → Type 0
IsEdge code low high first =
    (low < first) × (first ≤ high) × (code first ≡ value true) × (code (first - 1) ≡ value false)

-- Where the lower bound lacks code and the upper bound has it, the block that the bisection ends at
-- has code, and the block before it lacks it.
pub bisect-IsEdge :
    (code : ℕ → Settled Bool) (low high width : ℕ) (fits : high - low ≤ width) (w : Acc ◌<◌ width)
    (first : ℕ)
    → low < high
    → code low ≡ value false
    → code high ≡ value true
    → bisect code low high width fits w ≡ value first
    → IsEdge code low high first
unfolding bisect
bisect-IsEdge code low high width fits (Acc.intro _ smaller) first lt absent present h =
    elim (dec_lt (low + 1) high) [
      | no ended ↦
          let k = rw (dif_neg (dec_lt (low + 1) high) ended) at h in
          let same : high ≡ first = cc k in
          let edge : first - 1 ≡ low = omega (arith, same) in
          (
            omega (arith, same),
            omega (arith, same),
            ap code (sym same) ∙ present,
            ap code edge ∙ absent,
          )
      | yes wide ↦
          let k = rw (dif_pos (dec_lt (low + 1) high) le_prop wide) at h in
          elim (Settled-cases (code (middle low high))) [
            | inl (e, failed) ↦ absurd (cc (rw failed at k))
            | inr (true, there) ↦
                let edge =
                  bisect-IsEdge code low (middle low high) (middle low high - low) (omega arith)
                    (smaller _ (omega arith)) first (omega arith) absent there (rw there at k) in
                (edge.0, omega (arith, edge.1), edge.2, edge.3)
            | inr (false, missing) ↦
                let edge =
                  bisect-IsEdge code (middle low high) high (high - middle low high) (omega arith)
                    (smaller _ (omega arith)) first (omega arith) missing present
                    (rw missing at k) in
                (omega (arith, edge.0), edge.1, edge.2, edge.3)
          ]
    ]

answered :
    (x : Settled Bool) → (has : Bool) × (x ≡ value has) → (x ≡ value true) ⊎ (x ≡ value false)
answered (rejected e) (has, h) = absurd (cc h)
answered (value true) h = inl refl
answered (value false) h = inr refl

-- The bisection reaches an answer wherever the node answers between the bounds.
pub bisect_settles :
    (code : ℕ → Settled Bool) (low high width : ℕ) (fits : high - low ≤ width) (w : Acc ◌<◌ width)
    → ((n : ℕ) → (has : Bool) × (code n ≡ value has))
    → (first : ℕ) × (bisect code low high width fits w ≡ value first)
unfolding bisect
bisect_settles code low high width fits (Acc.intro _ smaller) answers =
    elim (dec_lt (low + 1) high) [
      | no ended ↦ (high, rw (dif_neg (dec_lt (low + 1) high) ended) refl)
      | yes wide ↦ elim (answered (code (middle low high)) (answers (middle low high))) [
        | inl there ↦
            let rest =
              bisect_settles code low (middle low high) (middle low high - low) (omega arith)
                (smaller _ (omega arith)) answers in
            (rest.0, rw (dif_pos (dec_lt (low + 1) high) le_prop wide, there) rest.1)
        | inr missing ↦
            let rest =
              bisect_settles code (middle low high) high (high - middle low high) (omega arith)
                (smaller _ (omega arith)) answers in
            (rest.0, rw (dif_pos (dec_lt (low + 1) high) le_prop wide, missing) rest.1)
      ]
    ]
