-- ===== src/Device/Waiting.antt =====
-- What the flags of a wait come to: the first event that ends it decides, and only after `subscribe`.
use presign.Prelude.{
  String, ◌≡◌, refl, ◌∙◌, ap, Bool, true, false, Option, none, some, List, [], ◌∷◌, any,
}
use presign.Device.{
  Event, pending, completed, stopped, error, stream_error, timer, ConfirmationResult, Wait, settle,
  steps_after, finish, hear, hear_all, await_device, push_label, label,
}

-- An event that ends the wait.
abbrev pub is_final : Event → Bool
is_final (pending step interaction) = false
is_final _ = true

-- The labels of the pending states up to the first event that ends the wait.
unfoldable pub shown : List Event → List String
shown [] = []
shown (pending step interaction ∷ es) = label step interaction ∷ shown es
shown (e ∷ es) = []

-- The steps after the pending states of a stream.
unfoldable pub pushed : List String → List Event → List String
unfolding steps_after
pushed steps [] = steps
pushed steps (e ∷ es) = pushed (steps_after steps e) es

-- What the first event that ends the wait settles it with.
unfoldable pub first_result : List String → List Event → Option ConfirmationResult
unfolding settle steps_after
first_result steps [] = none
first_result steps (e ∷ es) = elim (settle steps e) [
  | some result ↦ some result
  | none ↦ first_result (steps_after steps e) es
]

-- A wait that nothing has ended.
abbrev pub waiting : List String → Bool → Wait
waiting steps subscribed = record {
  steps = steps;
  settled = false;
  subscribed = subscribed;
  unsubscribed = false;
  resolved = none;
}

-- A wait that was settled without an answer.
abbrev lost : List String → Bool → Wait
lost steps subscribed = record (waiting steps subscribed) { settled = true }

-- A wait with its answer, which nothing is heard of any more.
abbrev answered : List String → ConfirmationResult → Wait
answered steps r = record {
  steps = steps;
  settled = true;
  subscribed = true;
  unsubscribed = true;
  resolved = some r;
}

hear_all-answered :
    (es : List Event) (steps : List String) (r : ConfirmationResult)
    → hear_all es (answered steps r) ≡ answered steps r
unfolding hear_all hear
hear_all-answered [] steps r = refl
hear_all-answered (e ∷ es) steps r = hear_all-answered es steps r

-- Settled without an answer, a wait never has one.
hear_all-lost :
    (es : List Event) (steps : List String) (subscribed : Bool)
    → hear_all es (lost steps subscribed) ≡ lost (pushed steps es) subscribed
unfolding hear_all hear finish settle steps_after pushed
hear_all-lost [] steps b = refl
hear_all-lost (pending step interaction ∷ es) steps b =
    hear_all-lost es (push_label (label step interaction) steps) b
hear_all-lost (completed g ∷ es) steps b = hear_all-lost es steps b
hear_all-lost (stopped ∷ es) steps b = hear_all-lost es steps b
hear_all-lost (error x y z ∷ es) steps b = hear_all-lost es steps b
hear_all-lost (stream_error m ∷ es) steps b = hear_all-lost es steps b
hear_all-lost (timer ms ∷ es) steps b = hear_all-lost es steps b

resolved_of :
    (w : Wait) (steps : List String) (r : ConfirmationResult)
    → w ≡ answered steps r
    → w.resolved ≡ some r
resolved_of w steps r h = ap (λ (x : Wait). x.resolved) h

-- Once subscribed, the first event that ends the wait decides.
hear_all-first_result :
    (es : List Event) (steps : List String)
    → (hear_all es (waiting steps true)).resolved ≡ first_result steps es
unfolding hear_all hear finish first_result settle steps_after
hear_all-first_result [] steps = refl
hear_all-first_result (pending step interaction ∷ es) steps =
    hear_all-first_result es (push_label (label step interaction) steps)
hear_all-first_result (completed g ∷ es) steps = resolved_of _ _ _ (hear_all-answered es steps _)
hear_all-first_result (stopped ∷ es) steps = resolved_of _ _ _ (hear_all-answered es steps _)
hear_all-first_result (error x y z ∷ es) steps = resolved_of _ _ _ (hear_all-answered es steps _)
hear_all-first_result (stream_error m ∷ es) steps = resolved_of _ _ _ (hear_all-answered es steps _)
hear_all-first_result (timer ms ∷ es) steps = resolved_of _ _ _ (hear_all-answered es steps _)

-- During the subscription, pending states only push their labels.
hear_all-opening :
    (es : List Event) (steps : List String)
    → any is_final es ≡ false
    → hear_all es (waiting steps false) ≡ waiting (pushed steps es) false
unfolding hear_all hear pushed settle steps_after
hear_all-opening [] steps quiet = refl
hear_all-opening (pending step interaction ∷ es) steps quiet =
    hear_all-opening es (push_label (label step interaction) steps) quiet
hear_all-opening (completed g ∷ es) steps quiet = absurd (cc quiet)
hear_all-opening (stopped ∷ es) steps quiet = absurd (cc quiet)
hear_all-opening (error a b c ∷ es) steps quiet = absurd (cc quiet)
hear_all-opening (stream_error m ∷ es) steps quiet = absurd (cc quiet)
hear_all-opening (timer ms ∷ es) steps quiet = absurd (cc quiet)

-- An end during the subscription settles the wait without an answer.
hear_all-ended :
    (es : List Event) (steps : List String)
    → any is_final es ≡ true
    → hear_all es (waiting steps false) ≡ lost (pushed steps es) false
unfolding hear_all hear finish settle steps_after pushed
hear_all-ended [] steps ends = absurd (cc ends)
hear_all-ended (pending step interaction ∷ es) steps ends =
    hear_all-ended es (push_label (label step interaction) steps) ends
hear_all-ended (completed g ∷ es) steps ends = hear_all-lost es steps false
hear_all-ended (stopped ∷ es) steps ends = hear_all-lost es steps false
hear_all-ended (error x y z ∷ es) steps ends = hear_all-lost es steps false
hear_all-ended (stream_error m ∷ es) steps ends = hear_all-lost es steps false
hear_all-ended (timer ms ∷ es) steps ends = hear_all-lost es steps false

-- What happens after `subscribe`, from what happened during it.
abbrev resume : List Event → Wait → Option ConfirmationResult
resume after w = (hear_all after (record w { subscribed = true })).resolved

-- The answer of a wait: none where the stream ended during the subscription, and otherwise what the
-- first end after it gives.
pub await_device-ended :
    (during after : List Event) → any is_final during ≡ true → await_device during after ≡ none
unfolding await_device
await_device-ended during after ends =
    ap (resume after) (hear_all-ended during [] ends)
    ∙ ap (λ (w : Wait). w.resolved) (hear_all-lost after (pushed [] during) true)

pub await_device-first_result :
    (during after : List Event)
    → any is_final during ≡ false
    → await_device during after ≡ first_result (pushed [] during) after
unfolding await_device
await_device-first_result during after quiet =
    ap (resume after) (hear_all-opening during [] quiet)
    ∙ hear_all-first_result after (pushed [] during)
