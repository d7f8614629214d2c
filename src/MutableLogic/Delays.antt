-- ===== src/MutableLogic/Delays.antt =====
-- What it means that R2 classifies an admin as `info`: a timelock with a delay long enough.
use mathlib.Core.List.{Memᴰ}
use Prim.Native.String
use presign.Prelude.{
  ℕ, ◌≤◌, ◌≡◌, refl, ap, ◌∙◌, String, Option, some, List, [], ◌∷◌, arith, leb, string_eq, inl, inr,
  Bool-cases, Option-cases, ◌<◌, ltb, not, ◌&&◌, ◌==◌,
}
use presign.Types.{info, RuleContext, value, value_injective}
use presign.Engine.Rules.{bind-value}
use presign.MutableLogic.{timelock_selectors, Options}
use presign.MutableLogic.Evaluate.{timelock, delay_of, find_timelock, Control, classify_admin}

-- The admin is a contract that answers a timelock's selector with a delay long enough.
abbrev pub IsDelayed : Options → RuleContext → String → Type 0
IsDelayed o ctx admin =
    (code : String) × (ctx.get_code admin ≡ value code)
    × (2 < String.count code)
    × ((asked : String × String) × (result : Option String) × (delay : ℕ) × Memᴰ asked
          timelock_selectors
        × (ctx.call admin asked.0 ≡ value result)
        × (delay_of result ≡ some delay)
        × (o.meaningful_delay_seconds ≤ delay))

timelock-info :
    (o : Options) (flavour : String) (delay : ℕ)
    → (timelock o flavour delay).severity ≡ info
    → o.meaningful_delay_seconds ≤ delay
unfolding timelock
timelock-info o flavour delay h = elim (Bool-cases (leb o.meaningful_delay_seconds delay)) [
  | inl long ↦ ground arith
  | inr short ↦ absurd (cc (rw short at h))
]

find_timelock-info :
    (o : Options) (ctx : RuleContext) (admin : String) (selectors : List (String × String))
    (control : Control)
    → find_timelock o ctx admin selectors ≡ value control
    → control.severity ≡ info
    → (asked : String × String) × (result : Option String) × (delay : ℕ) × Memᴰ asked selectors
      × (ctx.call admin asked.0 ≡ value result)
      × (delay_of result ≡ some delay)
      × (o.meaningful_delay_seconds ≤ delay)
unfolding find_timelock
find_timelock-info o ctx admin [] control h mild =
    absurd (cc (ap (λ (c : Control). c.severity) (value_injective h) ∙ mild))
find_timelock-info o ctx admin ((selector, flavour) ∷ rest) control h mild =
    let (result, answered, next) = bind-value (ctx.call admin selector) _ control h in
    elim (Option-cases (delay_of result)) [
      | inr (delay, found) ↦
          let e = value_injective (rw found at next) in
          (
            (selector, flavour),
            result,
            delay,
            Memᴰ.head refl,
            answered,
            found,
            timelock-info o flavour delay (ap (λ (c : Control). c.severity) e ∙ mild),
          )
      | inl nothing ↦
          let (asked, more, delay, m, reply, holds, long) =
            find_timelock-info o ctx admin rest control (rw nothing at next) mild in
          (asked, more, delay, Memᴰ.tail m, reply, holds, long)
    ]

pub classify_admin-IsDelayed :
    (o : Options) (ctx : RuleContext) (admin : String) (control : Control)
    → classify_admin o ctx admin ≡ value control
    → control.severity ≡ info
    → IsDelayed o ctx admin
unfolding classify_admin
classify_admin-IsDelayed o ctx admin control h mild =
    let (code, read, next) = bind-value (ctx.get_code admin) _ control h in
    elim (Bool-cases (not (code == "0x") && ltb 2 (String.count code))) [
      | inl contract ↦ (
        code,
        read,
        ground (arith, contract),
        find_timelock-info o ctx admin timelock_selectors control (rw contract at next) mild,
      )
      | inr bare ↦
          absurd (cc (ap (λ (c : Control). c.severity) (value_injective (rw bare at next)) ∙ mild))
    ]
