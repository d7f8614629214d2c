-- ===== src/Effects/Recipients.antt =====
-- Where the tokens that leave the sender go, as `valueEffects` reports it.
use mathlib.Core.List.{Memᴰ}
use presign.Prelude.{
  ℕ, ◌≤◌, ◌<◌, String, Bool, true, false, Option, some, List, [], ◌∷◌, map, ◌≡◌, sym, ap, ◌∙◌, ltb,
  ltb→lt, not, ◌==◌, string_eq, lower, filter, any, includes, arith, Option-cases, Bool-cases, inl,
  inr, is_empty, eq_refl, eqb,
}
use presign.Types.{UnsignedTransaction, StateDiff, AccountDiff, TokenOut}
use mathlib.Core.Path.{subst}
use presign.JsMap.{get, has}
use presign.JsMap.Laws.{includes-append, includes-unique}
use presign.Mappings.{Viem, mapping_entries, transaction_addresses, entry_slot, max_mapping_slot}
use presign.Mappings.Proofs.{mapping_entries-IsPlaced}
use presign.Effects.{
  Moved, move_slot, move_slots, word_at, storage, holder, named, is_none, token_out, token_effect,
}

module _ (is_sender : String → Bool) (before : Option (List (String × ℕ))) where
  move_slot_keeps :
      (m : Moved) (w : String × ℕ) (s : String)
      → includes s m.increased ≡ true
      → includes s (move_slot is_sender before m w).increased ≡ true
  unfolding move_slot
  move_slot_keeps m (raw, after) s h =
      ground (arith, includes-append s m.increased (lower raw ∷ []))

  move_slots_keep :
      (m : Moved) (ws : List (String × ℕ)) (s : String)
      → includes s m.increased ≡ true
      → includes s (move_slots is_sender before m ws).increased ≡ true
  unfolding move_slots
  move_slots_keep m [] s h = h
  move_slots_keep m (w ∷ ws) s h =
      move_slots_keep (move_slot is_sender before m w) ws s (move_slot_keeps m w s h)

  move_slot_adds :
      (m : Moved) (raw : String) (after : ℕ)
      → word_at raw before < after
      → includes (lower raw) (move_slot is_sender before m (raw, after)).increased ≡ true
  unfolding move_slot
  move_slot_adds m raw after h = ground (
    arith,
    includes-append (lower raw) m.increased (lower raw ∷ []),
    eq_refl {A = String} (lower raw),
  )

  -- Every slot that rose is collected.
  move_slots_add :
      (w : String × ℕ) (m : Moved) {ws : List (String × ℕ)}
      → Memᴰ w ws
      → word_at w.0 before < w.1
      → includes (lower w.0) (move_slots is_sender before m ws).increased ≡ true
  unfolding move_slots
  move_slots_add w m (Memᴰ.head {x} {xs} e) h =
      move_slots_keep (move_slot is_sender before m x) xs (lower w.0)
        (rw (← e) (move_slot_adds m w.0 w.1 h))
  move_slots_add w m (Memᴰ.tail {x} {xs} p) h =
      move_slots_add w (move_slot is_sender before m x) p h

-- A slot with a holder is explained by an address among those named.
holder_named :
    (h : String → Option String) (l : List String) (s : String)
    → includes s l ≡ true
    → any is_none (map h l) ≡ false
    → (r : String) × (h s ≡ some r) × (includes r (named (map h l)) ≡ true)
unfolding named
holder_named h [] s i e = ground arith
holder_named h (x ∷ l) s i e = elim (Option-cases (h x)) [
  | inl missing ↦ absurd (ground arith)
  | inr (r, found) ↦ elim (Bool-cases (x == s)) [
    | inl same ↦
        let same' : x ≡ s = (string_eq.equals_iff x s).0 same in
        (r, sym (ap h same') ∙ found, rw found (ground (arith, eq_refl {A = String} r)))
    | inr other ↦
        let (q, at, listed) = holder_named h l s (ground arith) (ground arith) in
        (q, at, rw found (ground arith))
  ]
]

holder_placed :
    (viem : Viem) (keys : List String) (s r : String)
    → holder (mapping_entries viem keys max_mapping_slot) s ≡ some r
    → (p : ℕ) × (p ≤ max_mapping_slot) × (entry_slot viem r p ≡ s)
unfolding holder
holder_placed viem keys s r h =
    elim (Option-cases (get s (mapping_entries viem keys max_mapping_slot))) [
      | inl missing ↦ absurd (ground arith)
      | inr (x, found) ↦
          let k = mapping_entries-IsPlaced viem keys max_mapping_slot s x found in
          let same : x.key ≡ r = ground arith in
          (
            x.mapping_slot,
            k.within,
            ap (λ a. entry_slot viem a x.mapping_slot) (sym same) ∙ k.placed,
          )
    ]

empty_has_none : (l : List String) (s : String) → includes s l ≡ true → is_empty l ≡ true → ⊥
empty_has_none [] s h e = cc
empty_has_none (x ∷ l) s h e = cc

module _ (viem : Viem) (tx : UnsignedTransaction) (diff : StateDiff) where
  -- The holders that `valueEffects` knows: every candidate address but the sender.
  abbrev candidates : List String
  candidates = filter (λ a. not (a == lower tx.from)) (transaction_addresses tx diff).addresses

  abbrev collected : String → List (String × ℕ) → Moved
  collected raw_token slots =
      move_slots (λ s. has s (mapping_entries viem (lower tx.from ∷ []) max_mapping_slot))
        (storage raw_token diff.pre) (record { amount_out = 0; increased = [] }) slots

  token_effect_lem :
      (raw_token : String) (account : AccountDiff) (slots : List (String × ℕ)) (t : TokenOut)
      → account.storage ≡ some slots
      → token_effect viem tx diff (raw_token, account) ≡ t ∷ []
      → token_out
          (mapping_entries viem candidates max_mapping_slot)
          (lower raw_token)
          (collected raw_token slots)
        ≡ t
  unfolding token_effect
  token_effect_lem raw_token account slots t hs ht =
      elim (Bool-cases (eqb (collected raw_token slots).amount_out 0)) [
        | inl nothing ↦ cc (rw (hs, nothing) at ht)
        | inr some_out ↦ cc (rw (hs, some_out) at ht)
      ]

  -- Where a reported token has no unidentified recipient, every slot that rose on it is the balance
  -- entry of a reported recipient, at one of the positions that were searched.
  pub token_effect_explains :
      (raw_token : String) (account : AccountDiff) (slots : List (String × ℕ)) (t : TokenOut)
      (w : String × ℕ)
      → account.storage ≡ some slots
      → token_effect viem tx diff (raw_token, account) ≡ t ∷ []
      → t.unidentified_recipient ≡ false
      → Memᴰ w slots
      → word_at w.0 (storage raw_token diff.pre) < w.1
      → (r : String) × (p : ℕ) × (includes r t.recipients ≡ true)
        × (p ≤ max_mapping_slot)
        × (entry_slot viem r p ≡ lower w.0)
  unfolding token_out holder
  token_effect_explains raw_token account slots t w hs ht known inside rose =
      let holders = mapping_entries viem candidates max_mapping_slot in
      let m = collected raw_token slots in
      let e = token_effect_lem raw_token account slots t hs ht in
      let listed =
        move_slots_add (λ s. has s (mapping_entries viem (lower tx.from ∷ []) max_mapping_slot))
          (storage raw_token diff.pre) w (record { amount_out = 0; increased = [] }) inside rose in
      let (r, at, named_r) =
        holder_named (holder holders) m.increased (lower w.0) listed
          (ap (λ (x : TokenOut). x.unidentified_recipient) e ∙ known) in
      let (p, within, placed) = holder_placed viem candidates (lower w.0) r at in
      (
        r,
        p,
        subst (λ (x : TokenOut). includes r x.recipients ≡ true) e
            (includes-unique r (named (map (holder holders) m.increased)) named_r),
        within,
        placed,
      )

  -- A token is reported as burned only where none of its slots rose.
  pub token_effect_burned :
      (raw_token : String) (account : AccountDiff) (slots : List (String × ℕ)) (t : TokenOut)
      (w : String × ℕ)
      → account.storage ≡ some slots
      → token_effect viem tx diff (raw_token, account) ≡ t ∷ []
      → t.burned ≡ true
      → Memᴰ w slots
      → w.1 ≤ word_at w.0 (storage raw_token diff.pre)
  unfolding token_out
  token_effect_burned raw_token account slots t w hs ht burned inside =
      let m = collected raw_token slots in
      let gone : is_empty m.increased ≡ true =
        ap (λ (x : TokenOut). x.burned) (token_effect_lem raw_token account slots t hs ht)
        ∙ burned in
      elim (Bool-cases (ltb (word_at w.0 (storage raw_token diff.pre)) w.1)) [
        | inl rose ↦ absurd (
            empty_has_none m.increased (lower w.0)
              (move_slots_add
                (λ s. has s (mapping_entries viem (lower tx.from ∷ []) max_mapping_slot))
                (storage raw_token diff.pre) w (record { amount_out = 0; increased = [] }) inside
                (ltb→lt _ _ rose))
              gone)
        | inr kept ↦ ground arith
      ]
