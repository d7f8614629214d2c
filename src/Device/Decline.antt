-- ===== src/Device/Decline.antt =====
-- When a wait has an answer, and that a human's refusal is reported only where the device reported one.
use presign.Prelude.{
  String, ◌≡◌, refl, sym, ap, ◌∙◌, Bool, true, false, ◌&&◌, Option, none, some, List, [], ◌∷◌,
  arith, any, not, inl, inr, Bool-cases,
}
use presign.Device.{
  Event, pending, completed, stopped, error, stream_error, timer, ConfirmationResult, not_approved,
  rejected_on_device, settle, steps_after, await_device, is_decline, push_label, label,
}
use presign.Device.Waiting.{
  is_final, first_result, pushed, await_device-ended, await_device-first_result,
}

-- An error whose code or message says that the human pressed reject.
abbrev pub declines : Event → Bool
declines (error tag message error_code) = is_decline tag message error_code
declines _ = false

first_result-rejected :
    (steps : List String) (es : List Event) (detail : String)
    → first_result steps es ≡ some (not_approved rejected_on_device detail)
    → any declines es ≡ true
unfolding first_result settle steps_after
first_result-rejected steps [] d h = absurd (cc h)
first_result-rejected steps (pending step interaction ∷ es) d h =
    first_result-rejected (push_label (label step interaction) steps) es d h
first_result-rejected steps (completed g ∷ es) d h = absurd (ground arith)
first_result-rejected steps (stopped ∷ es) d h = absurd (ground arith)
first_result-rejected steps (error a b c ∷ es) d h = ground arith
first_result-rejected steps (stream_error m ∷ es) d h = absurd (ground arith)
first_result-rejected steps (timer ms ∷ es) d h = absurd (ground arith)

-- `rejected_on_device` is reported only where an event after the subscription carried the device's
-- own code for it: not for a stop, a fault of the transport or a timeout.
pub await_device-rejected :
    (during after : List Event) (detail : String)
    → await_device during after ≡ some (not_approved rejected_on_device detail)
    → any declines after ≡ true
await_device-rejected during after d h = elim (Bool-cases (any is_final during)) [
  | inl ends ↦ absurd (cc (sym h ∙ await_device-ended during after ends))
  | inr quiet ↦
      first_result-rejected (pushed [] during) after d
        (sym (await_device-first_result during after quiet) ∙ h)
]

abbrev pub is_some : Option ConfirmationResult → Bool
is_some none = false
is_some (some r) = true

is_some-first_result :
    (steps : List String) (es : List Event) → is_some (first_result steps es) ≡ any is_final es
unfolding first_result settle steps_after
is_some-first_result steps [] = refl
is_some-first_result steps (pending step interaction ∷ es) =
    is_some-first_result (push_label (label step interaction) steps) es
is_some-first_result steps (completed g ∷ es) = refl
is_some-first_result steps (stopped ∷ es) = refl
is_some-first_result steps (error a b c ∷ es) = refl
is_some-first_result steps (stream_error m ∷ es) = refl
is_some-first_result steps (timer ms ∷ es) = refl

-- The wait has an answer exactly where the stream does not end while `subscribe` runs and an end, the
-- timer's among them, comes after it. A stream that ends while `subscribe` runs gives the caller no
-- answer, and neither does the timer then.
pub is_some-await_device :
    (during after : List Event)
    → is_some (await_device during after) ≡ (not (any is_final during) && any is_final after)
is_some-await_device during after = elim (Bool-cases (any is_final during)) [
  | inl ends ↦ rw ends (ap is_some (await_device-ended during after ends))
  | inr quiet ↦ rw quiet (
      ap is_some (await_device-first_result during after quiet)
      ∙ is_some-first_result (pushed [] during) after)
]
