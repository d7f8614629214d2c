-- ===== src/Device/Tests.antt =====
-- Sequences of device states.
use presign.Prelude.{
  ◌≡◌, refl, true, false, ◌&&◌, none, some, List, [], ◌∷◌, ◌++◌, any, includes, not, string_eq,
}
use presign.Device.{
  Signature, approved, not_approved, rejected_on_device, Event, pending, completed, error, timer,
  sign_transaction_step, is_fallback, await_device,
}
use presign.Device.Waiting.{is_final, shown}
use presign.Device.Steps.{await_device-clear}
use presign.Device.Decline.{declines, await_device-rejected, is_some, is_some-await_device}

abbrev signature : Signature
signature = record { r = "1"; s = "2"; v = 27 }

abbrev opening : List Event
opening = pending (some "open") none ∷ []

abbrev signing : List Event
signing = pending (some sign_transaction_step) none ∷ completed signature ∷ []

clear_answer :
    await_device opening signing
    ≡ some (approved signature true ("open" ∷ sign_transaction_step ∷ []))
unfolding await_device
clear_answer = refl

await_device-clear_example :
    (includes sign_transaction_step (shown (opening ++ signing)) ≡ true)
    × (any is_fallback (shown (opening ++ signing)) ≡ false)
await_device-clear_example =
    await_device-clear opening signing signature ("open" ∷ sign_transaction_step ∷ []) clear_answer

abbrev rejecting : List Event
rejecting = error none (some "Status 6985 received") none ∷ []

declined_answer :
    await_device opening rejecting
    ≡ some (not_approved rejected_on_device "declined on the device (Status 6985 received)")
unfolding await_device
declined_answer = refl

await_device-rejected_example : any declines rejecting ≡ true
await_device-rejected_example =
    await_device-rejected opening rejecting "declined on the device (Status 6985 received)"
      declined_answer

-- A refusal that comes while `subscribe` runs is lost, and the timer does not answer for it.
lost_answer : await_device rejecting (timer 120000 ∷ []) ≡ none
unfolding await_device
lost_answer = refl

is_some-await_device_example :
    is_some (await_device rejecting (timer 120000 ∷ []))
    ≡ (not (any is_final rejecting) && any is_final (timer 120000 ∷ []))
is_some-await_device_example = is_some-await_device rejecting (timer 120000 ∷ [])
