-- ===== src/Exposure/Growth.antt =====
-- When a transaction counts as exposing its sender further.
use mathlib.Core.List.{Memᴰ}
use presign.Prelude.{
  ℕ, ◌≤◌, ◌≡◌, ◌↔◌, refl, sym, ap, ◌∙◌, String, Bool, true, false, ◌||◌, none, some, List, [], ◌∷◌,
  ◌++◌, arith, any, lower, includes, is_empty, not, string_eq, if◌then◌else◌, inl, inr, Bool-cases,
  Option-cases, ◌==◌,
}
use presign.Types.{UnsignedTransaction, StateDiff, AccountDiff}
use presign.JsMap.{get, has}
use presign.Mappings.{
  Viem, MappingEntry, entry_slot, nested_slot, mapping_entries, nested_mapping_entries,
  transaction_addresses, max_mapping_slot,
}
use presign.Mappings.Proofs.{
  mapping_entries-IsPlaced, nested_mapping_entries-IsPlaced, mapping_entries_complete,
}
use presign.Exposure.{
  increased_slots, touches, sends_eth, token_reasons, exposure_reasons, exposure_growth,
}

some-of_has :
    (s : String) (m : List (String × MappingEntry))
    → has s m ≡ true
    → (x : MappingEntry) × (get s m ≡ some x)
unfolding has get
some-of_has s [] h = cc
some-of_has s ((j, x) ∷ m) h = elim (Bool-cases (j == s)) [
  | inl same ↦ (x, rw same refl)
  | inr other ↦ let (y, found) = some-of_has s m (rw other at h) in (y, rw other found)
]

touches-some :
    (entries : List (String × MappingEntry)) (slots : List String)
    → touches entries slots ≡ true
    → (s : String) × (x : MappingEntry) × (includes s slots ≡ true) × (get s entries ≡ some x)
touches-some entries [] h = cc
touches-some entries (s ∷ slots) h = elim (Bool-cases (has s entries)) [
  | inl here ↦
      let (x, found) = some-of_has s entries here in
      (s, x, ground (arith, (string_eq.equals_iff s s).1 refl), found)
  | inr other ↦
      let (t, x, later, found) = touches-some entries slots (rw other at h) in
      (t, x, ground (arith, later), found)
]

some_touches :
    (entries : List (String × MappingEntry)) (slots : List String) (s : String)
    → includes s slots ≡ true
    → has s entries ≡ true
    → touches entries slots ≡ true
some_touches entries [] s i h = i
some_touches entries (t ∷ slots) s i h = elim (Bool-cases (t == s)) [
  | inl same ↦
      let path : t ≡ s = (string_eq.equals_iff t s).0 same in
      rw (ap (λ u. has u entries) path ∙ h) refl
  | inr other ↦ ground (arith, some_touches entries slots s (rw other at i) h)
]

-- An entry for a key of the list, at a position that is searched, stands at a slot of the list.
abbrev pub IsEntry : (String → ℕ → String) → List String → List String → Type 0
IsEntry slot keys slots =
    (key : String) × (p : ℕ) × (includes key keys ≡ true)
    × (p ≤ max_mapping_slot)
    × (includes (slot key p) slots ≡ true)

module _ (viem : Viem) where
  touches-IsEntry :
      (keys slots : List String)
      → (touches (mapping_entries viem keys max_mapping_slot) slots ≡ true)
        ↔ IsEntry (entry_slot viem) keys slots
  touches-IsEntry keys slots = (
    λ h.
        let (s, x, i, found) = touches-some (mapping_entries viem keys max_mapping_slot) slots h in
        let k = mapping_entries-IsPlaced viem keys max_mapping_slot s x found in
        (x.key, x.mapping_slot, k.listed, k.within, ap (λ t. includes t slots) k.placed ∙ i),
    λ h.
        let (key, p, listed, within, i) = h in
        some_touches _ slots (entry_slot viem key p) i
          (mapping_entries_complete viem key keys max_mapping_slot key p listed within).0,
  )

  touches_nested-IsEntry :
      (outer : String) (keys slots : List String)
      → (touches (nested_mapping_entries viem outer keys max_mapping_slot) slots ≡ true)
        ↔ IsEntry (nested_slot viem outer) keys slots
  touches_nested-IsEntry outer keys slots = (
    λ h.
        let (s, x, i, found) =
          touches-some (nested_mapping_entries viem outer keys max_mapping_slot) slots h in
        let k = nested_mapping_entries-IsPlaced viem outer keys max_mapping_slot s x found in
        (x.key, x.mapping_slot, k.listed, k.within, ap (λ t. includes t slots) k.placed ∙ i),
    λ h.
        let (key, p, listed, within, i) = h in
        some_touches _ slots (nested_slot viem outer key p) i
          (mapping_entries_complete viem outer keys max_mapping_slot key p listed within).1,
  )

-- A token other than the contract has a balance entry for it that rose.
abbrev pub gains :
    List (String × MappingEntry) → StateDiff → String → List (String × AccountDiff) → Bool
gains entries diff target accounts =
    any
      (λ (a : String × AccountDiff).
        if lower a.0 == target then false else touches entries (increased_slots diff a.0))
      accounts

token_reasons_iff :
    (entries : List (String × MappingEntry)) (diff : StateDiff) (target : String)
    (accounts : List (String × AccountDiff))
    → is_empty (token_reasons entries diff target accounts)
      ≡ not (gains entries diff target accounts)
unfolding token_reasons
token_reasons_iff entries diff target [] = refl
token_reasons_iff entries diff target ((account, changes) ∷ rest) =
    ground (arith, token_reasons_iff entries diff target rest)

any_some :
    {A : Type 0} (p : A → Bool) (xs : List A) → any p xs ≡ true → (x : A) × Memᴰ x xs × (p x ≡ true)
any_some p [] h = cc
any_some p (x ∷ xs) h = elim (Bool-cases (p x)) [
  | inl here ↦ (x, Memᴰ.head refl, here)
  | inr other ↦ let (y, m, later) = any_some p xs (rw other at h) in (y, Memᴰ.tail m, later)
]

some_any :
    {A : Type 0} (p : A → Bool) (x : A) (xs : List A) → Memᴰ x xs → p x ≡ true → any p xs ≡ true
some_any p x xs (Memᴰ.head {x = y} {xs = ys} e) h = rw (ap p (sym e) ∙ h) refl
some_any p x xs (Memᴰ.tail {x = y} {xs = ys} m) h = ground (arith, some_any p x ys m h)

is_empty-append :
    (xs ys : List String) → not (is_empty (xs ++ ys)) ≡ (not (is_empty xs) || not (is_empty ys))
is_empty-append [] ys = refl
is_empty-append (x ∷ xs) ys = refl

is_empty-if : (b : Bool) (s : String) → not (is_empty (if b then s ∷ [] else [])) ≡ b
is_empty-if true s = refl
is_empty-if false s = refl

join_tests : {a b c d : Bool} → a ≡ c → b ≡ d → (a || b) ≡ (c || d)
join_tests h k i = h i || k i

not-not : (b : Bool) → not (not b) ≡ b
not-not true = refl
not-not false = refl

-- What a transaction that landed does to the contract: it pays it ETH, raises an entry for it on
-- another account's mapping, gives a candidate an allowance on it, or raises an entry for the sender.
pub data Exposes (viem : Viem) (tx : UnsignedTransaction) (diff : StateDiff) (contract : String)
    : Type 0 where
  eth : sends_eth tx diff (lower contract) ≡ true → Exposes viem tx diff contract
  tokens :
      (a : String × AccountDiff)
      → Memᴰ a diff.post
      → (lower a.0 == lower contract) ≡ false
      → IsEntry (entry_slot viem) (lower contract ∷ []) (increased_slots diff a.0)
      → Exposes viem tx diff contract
  allowances :
      IsEntry
        (nested_slot viem (lower tx.from))
        (transaction_addresses tx diff).addresses
        (increased_slots diff (lower contract))
      → Exposes viem tx diff contract
  balances :
      IsEntry (entry_slot viem) (lower tx.from ∷ []) (increased_slots diff (lower contract))
      → Exposes viem tx diff contract

module _ (viem : Viem) (tx : UnsignedTransaction) (diff : StateDiff) (contract : String) where
  abbrev own : List String
  own = increased_slots diff (lower contract)

  abbrev of_target : List (String × MappingEntry)
  of_target = mapping_entries viem (lower contract ∷ []) max_mapping_slot

  abbrev allowed : List (String × MappingEntry)
  allowed =
      nested_mapping_entries viem (lower tx.from) (transaction_addresses tx diff).addresses
        max_mapping_slot

  abbrev recorded : List (String × MappingEntry)
  recorded = mapping_entries viem (lower tx.from ∷ []) max_mapping_slot

  abbrev gained : Bool
  gained = gains of_target diff (lower contract) diff.post

  exposes :
      (sends_eth tx diff (lower contract)
          || (gained || (touches allowed own || touches recorded own)))
        ≡ true
      → Exposes viem tx diff contract
  exposes h = elim (Bool-cases (sends_eth tx diff (lower contract))) [
    | inl paid ↦ eth paid
    | inr unpaid ↦ elim (Bool-cases gained) [
      | inl moved ↦
          let (a, m, here) = any_some _ diff.post moved in
          elim (Bool-cases (lower a.0 == lower contract)) [
            | inl same ↦ absurd (cc (rw same at here))
            | inr other ↦ tokens a m other ((touches-IsEntry viem _ _).0 (rw other at here))
          ]
      | inr unmoved ↦ elim (Bool-cases (touches allowed own)) [
        | inl granted ↦ allowances ((touches_nested-IsEntry viem (lower tx.from) _ own).0 granted)
        | inr ungranted ↦
            balances ((touches-IsEntry viem _ own).0 (rw (unpaid, unmoved, ungranted) at h))
      ]
    ]
  ]

  tests :
      Exposes viem tx diff contract
      → (sends_eth tx diff (lower contract)
          || (gained || (touches allowed own || touches recorded own)))
        ≡ true
  tests (eth paid) = rw paid refl
  tests (tokens a m other k) = ground (
    arith,
    some_any
        (λ (b : String × AccountDiff).
          if lower b.0 == lower contract
          then false
          else touches of_target (increased_slots diff b.0))
        a diff.post m
        (rw other ((touches-IsEntry viem (lower contract ∷ []) (increased_slots diff a.0)).1 k)),
  )
  tests (allowances k) = ground (
    arith,
    (touches_nested-IsEntry viem (lower tx.from) (transaction_addresses tx diff).addresses own).1 k,
  )
  tests (balances k) = ground (arith, (touches-IsEntry viem (lower tx.from ∷ []) own).1 k)

  reasons_tests : not (is_empty (exposure_reasons viem tx diff contract)) ≡ (
      sends_eth tx diff (lower contract)
      || (gained || (touches allowed own || touches recorded own)))
  unfolding exposure_reasons
  reasons_tests =
      is_empty-append (if sends_eth tx diff (lower contract) then "sends it ETH" ∷ [] else []) _
      ∙ join_tests (is_empty-if (sends_eth tx diff (lower contract)) "sends it ETH") (
          is_empty-append (token_reasons of_target diff (lower contract) diff.post) _
          ∙ join_tests
              (ap not (token_reasons_iff of_target diff (lower contract) diff.post) ∙ not-not _)
              (is_empty-append
                  (if touches allowed own then "grants an allowance on it" ∷ [] else []) _
                ∙ join_tests (is_empty-if (touches allowed own) "grants an allowance on it") (
                    is_empty-if (touches recorded own)
                      "increases a balance it records for the sender")))

  -- A transaction adds exposure to a contract exactly when its simulation landed and it exposes the
  -- sender to the contract in one of the four ways.
  pub exposure_growth_iff :
      ((exposure_growth viem tx diff contract).grows ≡ true)
      ↔ ((diff.revert_reason ≡ none) × Exposes viem tx diff contract)
  unfolding exposure_growth transaction_addresses presign.Mappings.all_addresses
  exposure_growth_iff = (
    λ h. elim (Option-cases diff.revert_reason) [
      | inr (why, reverted) ↦ absurd (cc (rw reverted at h))
      | inl landed ↦ (landed, exposes (sym reasons_tests ∙ rw landed at h))
    ],
    λ h. rw h.0 (reasons_tests ∙ tests h.1),
  )
