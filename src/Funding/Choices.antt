-- ===== src/Funding/Choices.antt =====
-- packages/operational-layer/src/gateway/funding.ts: `chooseFunding`, and the endpoints and headers of
-- the two ways to pay. viem's `privateKeyToAccount` is a parameter: the address of a key, or an error.
use Prim.Native.String
use Prim.Native.Char.{code}
use text.Mathlib.Text.{starts_with}
use presign.Prelude.{
  ℕ, ◌≡◌, ◌≢◌, ◌↔◌, ◌⊎◌, refl, String, Bool, true, false, ◌&&◌, ◌||◌, Option, none, some, List, [],
  ◌∷◌, leb, eqb, if◌then◌else◌, text_of, inl, inr, Option-cases, Bool-cases, sym, ap, ◌∙◌,
}
use presign.Types.{Settled, value, rejected, value_injective, rejected-ne-value}
use presign.Engine.{◌>>=◌}
use presign.Engine.Rules.{bind-value}

-- GatewayFunding["kind"]
pub data Kind : Type 0 where
  studio_key x402 : Kind

-- `url` of StudioKeyFunding and of X402Funding
unfoldable pub funding_url : Kind → String → String → String
unfolding text_of
funding_url studio_key base deployment = text_of (base ∷ "/deployments/id/" ∷ deployment ∷ [])
funding_url x402 base deployment = text_of (base ∷ "/x402/deployments/id/" ∷ deployment ∷ [])

-- `headers` of StudioKeyFunding, on what its `apiKey` answers, and of X402Funding
unfoldable pub funding_headers : Kind → Settled String → Settled (List (String × String))
unfolding text_of
funding_headers studio_key key =
    key >>= λ k. value (("Authorization", text_of ("Bearer " ∷ k ∷ [])) ∷ [])
funding_headers x402 key = value []

pub record FundingChoice : Type 0 where
  pub kind : Kind
  pub reason : String

-- ChooseFundingOptions, as far as the choice depends on them
pub record ChooseOptions : Type 0 where
  pub studio_api_key : Option String
  pub payer_key : Option String
  pub prefer : Option Kind

-- ASCII white space
unfoldable pub is_space : ℕ → Bool
is_space c = eqb c 32 || (leb 9 c && leb c 13)

unfoldable pub trim_start : String → String
unfolding is_space
trim_start String.[] = String.[]
trim_start (String.◌∷◌ c s) =
    let rest = trim_start s in if is_space (code c) then rest else String.◌∷◌ c s

-- White space with nothing after it.
unfoldable pub trim_end : String → String
unfolding is_space
trim_end String.[] = String.[]
trim_end (String.◌∷◌ c s) =
    let rest = trim_end s in
    if is_space (code c) && eqb (String.count rest) 0 then String.[] else String.◌∷◌ c rest

-- normalisePrivateKey
unfoldable pub normalise_private_key : String → String
unfolding trim_start trim_end
normalise_private_key raw =
    let trimmed = trim_end (trim_start raw) in
    if starts_with trimmed "0x" then trimmed else String.◌++◌ "0x" trimmed

nothing_chosen : (choice : FundingChoice) → value none ≡ value (some choice) → ⊥
nothing_chosen choice h = cc h

some_injective : {a b : FundingChoice} → some a ≡ some b → a ≡ b
some_injective h = cc h

kind_of : (a b : FundingChoice) → some a ≡ some b → a.kind ≡ x402 → b.kind ≡ x402
kind_of a b e h = sym (ap (λ (x : FundingChoice). x.kind) (some_injective e)) ∙ h

module _ (account_of : String → Settled String) where
  -- The local `x402`: none where there is no payer key.
  unfoldable pub x402_choice : Option String → Settled (Option FundingChoice)
  unfolding normalise_private_key text_of
  x402_choice none = value none
  x402_choice (some payer_key) = account_of (normalise_private_key payer_key) >>= λ address. value (
      some (record {
        kind = x402;
        reason = text_of ("paying per query over x402 on Base from " ∷ address ∷ []);
      }))

  abbrev or_throw : String → Option FundingChoice → Settled FundingChoice
  or_throw message none = rejected message
  or_throw message (some choice) = value choice

  -- The end of chooseFunding, where no Studio key is configured.
  unfoldable pub choose_without_key : ChooseOptions → Settled FundingChoice
  unfolding text_of x402_choice
  choose_without_key o = x402_choice o.payer_key >>= λ chosen.
      or_throw "no Studio API key and no payer key: queries cannot be funded" chosen >>= λ choice.
      value (record choice {
        reason = text_of (
            choice.reason ∷ " — no Studio key is configured, which is the case x402 exists for"
            ∷ []);
      })

  abbrev with_key : Option Kind → FundingChoice
  with_key none = record {
    kind = studio_key;
    reason = "using the Studio API key (set GATEWAY_FUNDING=x402 to pay per query instead)";
  }
  with_key (some kind) = record { kind = studio_key; reason = "using the Studio API key" }

  unfoldable pub choose_unforced : ChooseOptions → Settled FundingChoice
  unfolding choose_without_key
  choose_unforced o = elim o.studio_api_key [
    | none ↦ choose_without_key o
    | some key ↦ value (with_key o.prefer)
  ]

  abbrev wants_x402 : Option Kind → Bool
  wants_x402 (some x402) = true
  wants_x402 _ = false

  -- chooseFunding
  unfoldable pub choose_funding : ChooseOptions → Settled FundingChoice
  unfolding choose_unforced x402_choice
  choose_funding o =
      if wants_x402 o.prefer
      then (x402_choice o.payer_key
          >>= or_throw "x402 funding was requested but no payer key is configured")
      else choose_unforced o

  -- A choice to pay has a payer key, and pays over x402.
  abbrev pub IsPaying : ChooseOptions → FundingChoice → Type 0
  IsPaying o choice = (choice.kind ≡ x402) × (o.payer_key ≢ none)

  x402_choice-IsPaying :
      (o : ChooseOptions) (choice : FundingChoice)
      → x402_choice o.payer_key ≡ value (some choice)
      → IsPaying o choice
  unfolding x402_choice
  x402_choice-IsPaying o choice h = elim (Option-cases o.payer_key) [
    | inl missing ↦ absurd (nothing_chosen choice (rw missing at h))
    | inr (key, there) ↦
        let (address, known, e) =
          bind-value (account_of (normalise_private_key key)) _ (some choice) (rw there at h) in
        (kind_of _ choice (value_injective e) refl, λ missing. cc (sym there ∙ missing))
  ]

  thrown :
      (message : String) (chosen : Option FundingChoice) (choice : FundingChoice)
      → or_throw message chosen ≡ value choice
      → chosen ≡ some choice
  thrown message none choice h = absurd (rejected-ne-value message choice h)
  thrown message (some c) choice h = ap some (value_injective h)

  wants_x402_iff : (p : Option Kind) → (wants_x402 p ≡ true) ↔ (p ≡ some x402)
  wants_x402_iff none = (λ h. cc h, λ h. cc h)
  wants_x402_iff (some studio_key) = (λ h. cc h, λ h. cc h)
  wants_x402_iff (some x402) = (λ h. refl, λ h. refl)

  forced_lem :
      (o : ChooseOptions) (choice : FundingChoice)
      → (x402_choice o.payer_key
          >>= or_throw "x402 funding was requested but no payer key is configured")
        ≡ value choice
      → IsPaying o choice
  forced_lem o choice h =
      let (chosen, e, e') = bind-value (x402_choice o.payer_key) _ choice h in
      x402_choice-IsPaying o choice (e ∙ ap value (thrown _ chosen choice e'))

  without_key_lem :
      (o : ChooseOptions) (choice : FundingChoice)
      → choose_without_key o ≡ value choice
      → IsPaying o choice
  unfolding choose_without_key
  without_key_lem o choice h =
      let (chosen, e, rest) = bind-value (x402_choice o.payer_key) _ choice h in
      let (c, e', last) =
        bind-value (or_throw "no Studio API key and no payer key: queries cannot be funded" chosen)
          _ choice rest in
      let (pays, there) = x402_choice-IsPaying o c (e ∙ ap value (thrown _ chosen c e')) in
      (sym (ap (λ (x : FundingChoice). x.kind) (value_injective last)) ∙ pays, there)

  with_key_kind : (p : Option Kind) → (with_key p).kind ≡ studio_key
  with_key_kind none = refl
  with_key_kind (some k) = refl

  choose_funding_kind :
      (o : ChooseOptions) (choice : FundingChoice)
      → choose_funding o ≡ value choice
      → (IsPaying o choice × ((o.prefer ≡ some x402) ⊎ (o.studio_api_key ≡ none)))
        ⊎ ((choice.kind ≡ studio_key) × (o.prefer ≢ some x402) × (o.studio_api_key ≢ none))
  unfolding choose_funding choose_unforced
  choose_funding_kind o choice h = elim (Bool-cases (wants_x402 o.prefer)) [
    | inl asked ↦ inl (forced_lem o choice (rw asked at h), inl ((wants_x402_iff o.prefer).0 asked))
    | inr free ↦
        let unforced : choose_unforced o ≡ value choice = rw free at h in
        let go : Option String → Settled FundingChoice =
          λ k. elim k [ none ↦ choose_without_key o | some key ↦ value (with_key o.prefer) ] in
        elim (Option-cases o.studio_api_key) [
          | inl missing ↦
              inl (without_key_lem o choice (sym (ap go missing) ∙ unforced), inr missing)
          | inr (key, there) ↦ inr (
            sym (
                  ap (λ (x : FundingChoice). x.kind)
                    (value_injective (sym (ap go there) ∙ unforced)))
                ∙ with_key_kind o.prefer,
            λ e. cc (sym free ∙ (wants_x402_iff o.prefer).1 e),
            λ missing. cc (sym there ∙ missing),
          )
        ]
  ]

  no_preference : (p : Option Kind) → p ≢ some studio_key → p ≢ some x402 → p ≡ none
  no_preference none a b = refl
  no_preference (some studio_key) a b = absurd (a refl)
  no_preference (some x402) a b = absurd (b refl)

  -- A preference is honoured, and nothing is paid that a free key could serve. Unless the Studio key is
  -- asked for and not configured, a funding that is chosen pays over x402 exactly where that was asked
  -- for, or where nothing was asked for and no Studio key is configured, and then there is a payer
  -- key; otherwise it draws on a Studio key that is configured.
  pub choose_funding_honours :
      (o : ChooseOptions) (choice : FundingChoice)
      → choose_funding o ≡ value choice
      → (o.prefer ≢ some studio_key) ⊎ (o.studio_api_key ≢ none)
      → (IsPaying o choice
          × ((o.prefer ≡ some x402) ⊎ ((o.prefer ≡ none) × (o.studio_api_key ≡ none))))
        ⊎ ((choice.kind ≡ studio_key) × (o.prefer ≢ some x402) × (o.studio_api_key ≢ none))
  choose_funding_honours o choice h able = elim (choose_funding_kind o choice h) [
    | inr free ↦ inr free
    | inl (pays, inl asked) ↦ inl (pays, inl asked)
    | inl (pays, inr missing) ↦ elim able [
      | inr there ↦ absurd (there missing)
      | inl unforced ↦ elim (Bool-cases (wants_x402 o.prefer)) [
        | inl asked ↦ inl (pays, inl ((wants_x402_iff o.prefer).0 asked))
        | inr silent ↦ inl (
          pays,
          inr (
            no_preference o.prefer unforced (λ e. cc (sym silent ∙ (wants_x402_iff o.prefer).1 e)),
            missing,
          ),
        )
      ]
    ]
  ]
