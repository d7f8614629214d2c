-- ===== src/Device/Steps.antt =====
-- What a device's answer rests on: a clear signature on the signing step, and no fallback.
use presign.Prelude.{
  String, ◌≡◌, refl, sym, ap, ◌∙◌, Bool, true, false, ◌&&◌, ◌||◌, some, List, [], ◌∷◌, ◌++◌, arith,
  any, includes, not, ◌==◌, string_eq, inl, inr, Bool-cases,
}
use presign.JsMap.Laws.{includes-append}
use presign.Device.{
  Event, pending, completed, stopped, error, stream_error, timer, approved, Signature, label,
  push_label, settle, steps_after, await_device, clear_signed, is_fallback, is_last,
  sign_transaction_step, contains,
}
use presign.Device.Waiting.{
  is_final, shown, pushed, first_result, await_device-ended, await_device-first_result,
}

push_label_from :
    (t s : String) (steps : List String)
    → includes s (push_label t steps) ≡ true
    → (includes s steps || t == s) ≡ true
unfolding push_label
push_label_from t s steps h = ground (arith, includes-append s steps (t ∷ []))

-- A label that is not pushed is empty, which is no fallback, or the last step.
any-is_last :
    (f : String → Bool) (t : String) (steps : List String)
    → is_last t steps ≡ true
    → f t ≡ true
    → any f steps ≡ true
unfolding is_last
any-is_last f t [] h holds = absurd (cc h)
any-is_last f t (x ∷ []) h holds = rw (ap f ((string_eq.equals_iff x t).0 h) ∙ holds) refl
any-is_last f t (x ∷ y ∷ l) h holds = ground (arith, any-is_last f t (y ∷ l) h holds)

any-append_one :
    (f : String → Bool) (steps : List String) (t : String)
    → any f (steps ++ t ∷ []) ≡ (any f steps || f t)
any-append_one f [] t = ground arith
any-append_one f (x ∷ l) t = ground (arith, any-append_one f l t)

is_fallback-empty : is_fallback "" ≡ false
unfolding is_fallback contains
is_fallback-empty = refl

any-push_label :
    (t : String) (steps : List String)
    → any is_fallback (push_label t steps) ≡ (any is_fallback steps || is_fallback t)
unfolding push_label
any-push_label t steps = elim (Bool-cases (t == "")) [
  | inl nothing ↦
      let same : t ≡ "" = (string_eq.equals_iff t "").0 nothing in
      rw nothing (ground (arith, ap is_fallback same, is_fallback-empty))
  | inr label_shown ↦ elim (Bool-cases (is_last t steps)) [
    | inl again ↦ rw (label_shown, again) (ground (arith, any-is_last is_fallback t steps again))
    | inr new ↦ rw (label_shown, new) (any-append_one is_fallback steps t)
  ]
]

-- The steps behind an answer: those from before, and what the device showed until it answered.
approved_steps :
    (s : String) (steps : List String) (es : List Event) (g : Signature) (c : Bool)
    (used : List String)
    → first_result steps es ≡ some (approved g c used)
    → includes s used ≡ true
    → (includes s steps || includes s (shown es)) ≡ true
unfolding first_result settle steps_after shown
approved_steps s steps [] g c used h i = absurd (cc h)
approved_steps s steps (pending step interaction ∷ es) g c used h i = ground (
  arith,
  approved_steps s (push_label (label step interaction) steps) es g c used h i,
  push_label_from (label step interaction) s steps,
)
approved_steps s steps (completed g' ∷ es) g c used h i = ground arith
approved_steps s steps (stopped ∷ es) g c used h i = absurd (ground arith)
approved_steps s steps (error a b d ∷ es) g c used h i = absurd (ground arith)
approved_steps s steps (stream_error m ∷ es) g c used h i = absurd (ground arith)
approved_steps s steps (timer ms ∷ es) g c used h i = absurd (ground arith)

approved_used :
    (a b : Signature) (c d : Bool) (used steps : List String)
    → some (approved a c steps) ≡ some (approved b d used)
    → (steps ≡ used) × (c ≡ d)
approved_used a b c d used steps h = (cc h, cc h)

-- Whether a fallback is among the steps, and what was claimed of them.
approved_fallback :
    (steps : List String) (es : List Event) (g : Signature) (c : Bool) (used : List String)
    → first_result steps es ≡ some (approved g c used)
    → (any is_fallback used ≡ (any is_fallback steps || any is_fallback (shown es)))
      × (c ≡ clear_signed used)
unfolding first_result settle steps_after shown
approved_fallback steps [] g c used h = absurd (cc h)
approved_fallback steps (pending step interaction ∷ es) g c used h =
    let (fallback, claim) =
      approved_fallback (push_label (label step interaction) steps) es g c used h in
    (ground (arith, fallback, any-push_label (label step interaction) steps), claim)
approved_fallback steps (completed g' ∷ es) g c used h =
    let (same, claim) = approved_used g' g (clear_signed steps) c used steps h in
    (ground (arith, ap (any is_fallback) same), sym claim ∙ ap clear_signed same)
approved_fallback steps (stopped ∷ es) g c used h = absurd (ground arith)
approved_fallback steps (error a b d ∷ es) g c used h = absurd (ground arith)
approved_fallback steps (stream_error m ∷ es) g c used h = absurd (ground arith)
approved_fallback steps (timer ms ∷ es) g c used h = absurd (ground arith)

-- Pending states before the rest: what is shown is shown in this order.
first_result-pushed :
    (steps : List String) (during after : List Event)
    → any is_final during ≡ false
    → first_result (pushed steps during) after ≡ first_result steps (during ++ after)
unfolding pushed first_result settle steps_after
first_result-pushed steps [] after quiet = refl
first_result-pushed steps (pending step interaction ∷ es) after quiet =
    first_result-pushed (push_label (label step interaction) steps) es after quiet
first_result-pushed steps (completed g' ∷ es) after quiet = absurd (cc quiet)
first_result-pushed steps (stopped ∷ es) after quiet = absurd (cc quiet)
first_result-pushed steps (error x y z ∷ es) after quiet = absurd (cc quiet)
first_result-pushed steps (stream_error m ∷ es) after quiet = absurd (cc quiet)
first_result-pushed steps (timer ms ∷ es) after quiet = absurd (cc quiet)

-- Clear signing is claimed only on evidence of it. Of the labels that the device showed, from the
-- start of the stream to its first end, one is the signing step and none is a fallback.
pub await_device-clear :
    (during after : List Event) (g : Signature) (used : List String)
    → await_device during after ≡ some (approved g true used)
    → (includes sign_transaction_step (shown (during ++ after)) ≡ true)
      × (any is_fallback (shown (during ++ after)) ≡ false)
await_device-clear during after g used h = elim (Bool-cases (any is_final during)) [
  | inl ends ↦ absurd (cc (sym h ∙ await_device-ended during after ends))
  | inr quiet ↦
      let answer =
        sym (first_result-pushed [] during after quiet)
        ∙ sym (await_device-first_result during after quiet)
        ∙ h in
      let (fallback, claim) = approved_fallback [] (during ++ after) g true used answer in
      let seen : (includes sign_transaction_step used && not (any is_fallback used)) ≡ true =
        unfold clear_signed in sym claim in
      (
        approved_steps sign_transaction_step [] (during ++ after) g true used answer (ground arith),
        ground arith,
      )
]
