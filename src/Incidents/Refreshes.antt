-- ===== src/Incidents/Refreshes.antt =====
-- A feed over many refreshes: what it lists, and that it never forgets on a failure.
use presign.Prelude.{
  ℕ, String, Bool, false, Option, none, some, List, [], ◌∷◌, ◌≡◌, refl, sym, ap, ◌∙◌, arith,
  is_empty, includes, lower, Bool-cases, Option-cases, any, ◌==◌, ◌&&◌, ◌||◌, inl, inr, string_eq,
}
use presign.Types.{Settled, value, rejected, Settled-cases, value_injective, rejected-ne-value}
use presign.JsMap.{add}
use presign.JsMap.Laws.{includes-add}
use presign.Incidents.{
  Response, Entry, Feed, array, string_entry, other_entry, read_entries, read_body, read_answer,
  refresh, feed_registry, is_address,
}

-- Refreshes one after another, each at its moment.
unfoldable pub refreshes : List (ℕ × Settled Response) → Feed → Feed
refreshes [] feed = feed
refreshes ((now, answer) ∷ rest) feed = refreshes rest (refresh now answer feed)

-- The last answer that gave a list, with its moment.
abbrev pub last_list : List (ℕ × Settled Response) → Option (ℕ × List String)
last_list [] = none
last_list ((now, answer) ∷ rest) = elim (last_list rest) [
  | some found ↦ some found
  | none ↦ elim (read_answer answer) [ rejected e ↦ none | value next ↦ some (now, next) ]
]

abbrev pub Holds : Feed → Option (ℕ × List String) → Feed → Type 0
Holds feed none before = (feed.addresses ≡ before.addresses) × (feed.fetched_at ≡ before.fetched_at)
Holds feed (some (now, next)) before = (feed.addresses ≡ next) × (feed.fetched_at ≡ some now)

module _ (now : ℕ) (answer : Settled Response) (feed : Feed) where
  refresh_failed :
      (m : String)
      → read_answer answer ≡ rejected m
      → ((refresh now answer feed).addresses ≡ feed.addresses)
        × ((refresh now answer feed).fetched_at ≡ feed.fetched_at)
  unfolding refresh
  refresh_failed m failed = rw (failed, refresh) (refl, refl)

  refresh_read :
      (next : List String)
      → read_answer answer ≡ value next
      → ((refresh now answer feed).addresses ≡ next)
        × ((refresh now answer feed).fetched_at ≡ some now)
  unfolding refresh
  refresh_read next read = rw (read, refresh) (refl, refl)

-- After any refreshes the feed holds the last list that an answer gave, with the moment of that
-- answer, and what it held before where none did: a failed refresh forgets nothing.
pub refreshes-Holds :
    (answers : List (ℕ × Settled Response)) (feed : Feed)
    → Holds (refreshes answers feed) (last_list answers) feed
unfolding refreshes
refreshes-Holds [] feed = (refl, refl)
refreshes-Holds ((now, answer) ∷ rest) feed =
    let more = refreshes-Holds rest (refresh now answer feed) in
    elim (Option-cases (last_list rest)) [
      | inr ((at, found), e) ↦ rw e (rw e at more)
      | inl e ↦
          let kept = rw e at more in
          elim (Settled-cases (read_answer answer)) [
            | inl (m, failed) ↦
                let (same, moment) = refresh_failed now answer feed m failed in
                rw (e, failed) (kept.0 ∙ same, kept.1 ∙ moment)
            | inr (next, read) ↦
                let (same, moment) = refresh_read now answer feed next read in
                rw (e, read) (kept.0 ∙ same, kept.1 ∙ moment)
          ]
    ]

-- An entry is an address, in any case, that `a` is the lower case of.
abbrev pub names : String → Entry → Bool
names a (string_entry s) = is_address s && lower s == a
names a other_entry = false

includes-read_entries :
    (a : String) (next : List String) (es : List Entry)
    → includes a (read_entries next es) ≡ (includes a next || any (names a) es)
unfolding read_entries
includes-read_entries a next [] = ground arith
includes-read_entries a next (other_entry ∷ es) = includes-read_entries a next es
includes-read_entries a next (string_entry s ∷ es) = elim (Bool-cases (is_address s)) [
  | inl valid ↦ rw valid (
      includes-read_entries a (add next (lower s)) es
      ∙ ground (arith, includes-add a (lower s) next))
  | inr other ↦ rw other (includes-read_entries a next es)
]

read_body_entries :
    (es : List Entry) (next : List String)
    → read_body (value (array es)) ≡ value next
    → read_entries [] es ≡ next
unfolding read_body
read_body_entries es next h = elim (Bool-cases (is_empty (read_entries [] es))) [
  | inl none_left ↦ absurd (rejected-ne-value _ next (rw none_left at h))
  | inr some_left ↦ value_injective (rw some_left at h)
]

read_answer_body :
    (r : Response) (next : List String)
    → read_answer (value r) ≡ value next
    → read_body r.json ≡ value next
unfolding read_answer
read_answer_body r next h = elim (Bool-cases r.ok) [
  | inl ok ↦ rw ok at h
  | inr failed ↦ absurd (rejected-ne-value _ next (rw failed at h))
]

-- After a refresh whose answer gives a list, the feed has an address, in whatever case it is
-- asked, exactly when an entry of the body is that address in some case.
pub refresh_has :
    (now : ℕ) (r : Response) (feed : Feed) (es : List Entry) (next : List String) (a : String)
    → r.json ≡ value (array es)
    → read_answer (value r) ≡ value next
    → (feed_registry (refresh now (value r) feed)).has a ≡ any (names (lower a)) es
unfolding feed_registry refresh
refresh_has now r feed es next a body read =
    let e : read_entries [] es ≡ next =
      read_body_entries es next (ap read_body (sym body) ∙ read_answer_body r next read) in
    rw (read, refresh) (ap (includes (lower a)) (sym e) ∙ includes-read_entries (lower a) [] es)
