-- ===== src/MutableLogic/Evaluate.antt =====
-- packages/verdict-engine/src/rules/r2-mutable-logic.ts: `#classifyAdmin`, the findings and
-- `evaluate`.
use Prim.Native.String
use presign.Prelude.{
  ℕ, ◌+◌, ◌-◌, ◌/◌, ◌^◌, String, Bool, true, false, ◌&&◌, ◌||◌, Option, none, some, List, [], ◌∷◌,
  ◌++◌, map, leb, ltb, eqb, not, if◌then◌else◌, ◌==◌, string_eq, lower, text_drop, text_of, decimal,
  includes,
}
use presign.Types.{
  Severity, info, warning, critical, Finding, RuleContext, RuleOutcome, evaluated, Rule, Settled,
  value,
}
use presign.Approvals.{hex_value}
use presign.Duration.{human_duration}
use presign.Exposure.{exposure_growth}
use presign.Mappings.{Viem}
use presign.MutableLogic.{
  Options, Proxy, Upgrade, timelock_selectors, upgraded_in_transaction, read_proxy,
}
use presign.Engine.{◌>>=◌}

-- What #classifyAdmin returns; its `isContract`, `flavour` and `delaySeconds` serve the evidence
-- alone.
pub record Control : Type 0 where
  pub severity : Severity
  pub title : String
  pub detail : String

abbrev pub single_key : Control
single_key = record {
  severity = critical;
  title = "Upgradeable contract controlled by a single key";
  detail =
      "The admin is an externally owned account, so one private key can replace the implementation in a single transaction with no delay and no notice.";
}

abbrev pub no_timelock : Control
no_timelock = record {
  severity = warning;
  title = "Upgradeable contract with no detectable timelock";
  detail =
      "The admin is a contract, but exposes no recognised timelock interface, so no enforced delay could be established. It may be a multisig or custom governance; that is not verifiable from here.";
}

unfoldable pub timelock : Options → String → ℕ → Control
unfolding text_of decimal
timelock o flavour delay =
    if leb o.meaningful_delay_seconds delay
    then record {
      severity = info;
      title = "Upgradeable contract behind a timelock";
      detail = text_of (
          "The admin is a "
          ∷ flavour
          ∷ " enforcing a "
          ∷ decimal delay
          ∷ "s delay, so an upgrade is visible on-chain before it takes effect."
          ∷ []);
    }
    else record {
      severity = warning;
      title = "Upgradeable contract behind a short timelock";
      detail = text_of (
          "The admin is a "
          ∷ flavour
          ∷ ", but its "
          ∷ decimal delay
          ∷ "s delay is under the "
          ∷ decimal o.meaningful_delay_seconds
          ∷ "s threshold and leaves little time to react."
          ∷ []);
    }

-- The delay that an answer holds: none for an empty answer, for zero and for what a double cannot
-- hold, which the loop passes over.
unfoldable pub delay_of : Option String → Option ℕ
unfolding hex_value text_drop
delay_of none = none
delay_of (some result) =
    let delay = hex_value 0 (text_drop 2 result) in
    if result == "0x"
    then none
    else if eqb delay 0
    then none
    else if leb (2 ^ 1024 - 2 ^ 970) delay
    then none
    else some delay

-- The loop over the selectors.
unfoldable pub find_timelock :
    Options → RuleContext → String → List (String × String) → Settled Control
unfolding delay_of timelock
find_timelock o ctx admin [] = value no_timelock
find_timelock o ctx admin ((selector, flavour) ∷ rest) = ctx.call admin selector >>= λ result.
    elim (delay_of result) [
      | some delay ↦ value (timelock o flavour delay)
      | none ↦ find_timelock o ctx admin rest
    ]

-- #classifyAdmin
unfoldable pub classify_admin : Options → RuleContext → String → Settled Control
unfolding find_timelock
classify_admin o ctx admin = ctx.get_code admin >>= λ code.
    if not (code == "0x") && ltb 2 (String.count code)
    then find_timelock o ctx admin timelock_selectors
    else value single_key

-- `Math.max(0, Math.round(now / 1000) - timestamp)`
abbrev pub seconds_ago : ℕ → ℕ → ℕ
seconds_ago now timestamp = (now + 500) / 1000 - timestamp

unfoldable pub recent_upgrade : Options → String → Upgrade → Finding
unfolding human_duration text_of decimal
recent_upgrade o address last =
    let ago = human_duration (seconds_ago o.now last.timestamp) in
    record {
      rule_id = "R2";
      severity = critical;
      standing = true;
      title = text_of ("Implementation changed " ∷ ago ∷ " ago" ∷ []);
      detail = text_of (
          address
          ∷ " was pointed at a new implementation ("
          ∷ last.implementation
          ∷ ") at block "
          ∷ decimal last.block
          ∷ ", "
          ∷ ago
          ∷ " ago. Any review of this contract older than that describes code which is no longer running."
          ∷ []);
      evidence = [];
    }

unfoldable pub last_upgrade_findings : Options → String → Upgrade → List Finding
last_upgrade_findings o address last =
    if leb (seconds_ago o.now last.timestamp) o.recent_upgrade_seconds
    then recent_upgrade o address last ∷ []
    else []

abbrev pub is_stopped : Option Bool → Bool
is_stopped (some false) = true
is_stopped _ = false

-- #readUpgradeHistory: its finding, or none
unfoldable pub history_findings : Options → String → List Finding
unfolding last_upgrade_findings recent_upgrade
history_findings o address = elim o.upgrade_history [
  | none ↦ []
  | some history ↦ if is_stopped history.live then [] else elim (history.last_upgrade address) [
    | none ↦ []
    | some last ↦ last_upgrade_findings o address last
  ]
]

-- `x ?? text`
abbrev or_text : String → Option String → String
or_text s none = s
or_text s (some t) = t

-- The finding on an upgrade inside the transaction.
unfoldable pub upgrade_findings : RuleContext → String → List Finding
unfolding upgraded_in_transaction text_of
upgrade_findings ctx address = elim (upgraded_in_transaction ctx.diff address) [
  | none ↦ []
  | some upgrade ↦
      record {
        rule_id = "R2";
        severity = critical;
        standing = false;
        title = "This transaction replaces the contract's implementation";
        detail = text_of (
            "The implementation slot "
            ∷ upgrade.0
            ∷ " of "
            ∷ address
            ∷ " is written by this transaction, pointing at "
            ∷ or_text "an unreadable value" upgrade.1
            ∷ ". The code that runs after this transaction is not the code that was reviewed before it."
            ∷ []);
        evidence = [];
      }
      ∷ []
]

unfoldable pub hidden_controller : String → Proxy → Finding
unfolding text_of
hidden_controller address proxy = record {
  rule_id = "R2";
  severity = info;
  standing = true;
  title = "Contract is upgradeable, controller not visible on-chain here";
  detail = text_of (
      address ∷ " is a " ∷ proxy.standard ∷ " proxy delegating to " ∷ proxy.implementation
      ∷ ", but its admin slot is empty. Upgrade authority is held somewhere this rule cannot see, such as a beacon or an external governance contract."
      ∷ []);
  evidence = [];
}

abbrev is_info : Severity → Bool
is_info info = true
is_info _ = false

unfoldable pub control_finding : String → Proxy → String → Control → Bool → Finding
unfolding text_of
control_finding address proxy admin control grows = record {
  rule_id = "R2";
  severity = if grows then control.severity else info;
  standing = true;
  title = control.title;
  detail = text_of (
      address
      ∷ " is a "
      ∷ proxy.standard
      ∷ " proxy delegating to "
      ∷ proxy.implementation
      ∷ ". Its admin is "
      ∷ admin
      ∷ ". "
      ∷ control.detail
      ∷ (if grows || is_info control.severity
          then ""
          else " This transaction neither sends it value, moves tokens into it, grants an allowance on it nor raises a balance it records for the sender, so it adds nothing to that exposure and does not raise the tier.")
      ∷ []);
  evidence = [];
}

module _ (viem : Viem) where
  -- The rest of `evaluate`, from the admin on.
  unfoldable pub judge_admin : Options → RuleContext → String → Proxy → String → Settled RuleOutcome
  unfolding classify_admin history_findings upgrade_findings lower
  judge_admin o ctx address proxy admin =
      if includes admin (map lower o.allowlist)
      then value (evaluated (upgrade_findings ctx address) [] [])
      else (classify_admin o ctx admin >>= λ control. value (
          evaluated
            (upgrade_findings ctx address
              ++ control_finding address proxy admin control
                  (exposure_growth viem ctx.transaction ctx.diff address).grows
                ∷ history_findings o address)
            [] []))

  -- The rest of `evaluate`, from the proxy on.
  unfoldable pub judge_proxy : Options → RuleContext → String → Proxy → Settled RuleOutcome
  unfolding judge_admin history_findings upgrade_findings
  judge_proxy o ctx address proxy = elim proxy.admin [
    | none ↦ value (
        evaluated
          (upgrade_findings ctx address
            ++ hidden_controller address proxy ∷ history_findings o address)
          [] [])
    | some admin ↦ judge_admin o ctx address proxy admin
  ]

  -- The rest of `evaluate`, from the read of the proxy on.
  unfoldable pub judge_read : Options → RuleContext → String → Option Proxy → Settled RuleOutcome
  unfolding judge_proxy
  judge_read o ctx address none = value (evaluated [] [] [])
  judge_read o ctx address (some proxy) = judge_proxy o ctx address proxy

  -- evaluate
  unfoldable pub evaluate : Options → RuleContext → Settled RuleOutcome
  unfolding judge_read read_proxy lower
  evaluate o ctx = elim ctx.transaction.to [
    | none ↦ value (evaluated [] [] [])
    | some target ↦ read_proxy ctx (lower target) >>= judge_read o ctx (lower target)
  ]

  -- MutableLogicRule
  abbrev pub mutable_logic : Options → Rule
  mutable_logic o = record { id = "R2"; evaluate = evaluate o }
