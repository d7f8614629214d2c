-- ===== src/MutableLogic.antt =====
-- packages/verdict-engine/src/rules/r2-mutable-logic.ts: rule R2. The history of upgrades is a
-- parameter. A storage word has 32 bytes. A delay in a text is under 2^53, as a double is exact there.
pub mod Evaluate
pub mod Upgrades
pub mod Delays
pub mod Exposed
mod Tests
use Prim.Native.String
use Prim.Native.Char.{Char}
use presign.Prelude.{
  ℕ, zero, suc, ◌+◌, ◌-◌, ◌*◌, ◌/◌, ◌%◌, ◌^◌, String, Bool, true, false, ◌&&◌, ◌||◌, Option, none,
  some, List, [], ◌∷◌, ◌++◌, map, leb, ltb, eqb, not, if◌then◌else◌, ◌==◌, string_eq, lower,
  text_drop, text_of, decimal, includes,
}
use presign.Types.{
  Severity, info, warning, critical, Finding, RuleContext, RuleOutcome, evaluated, Rule, Settled,
  value, StateDiff, field,
}
use presign.Effects.{storage}
use presign.Approvals.{hex_value}
use presign.Duration.{human_duration}
use presign.Exposure.{ExposureGrowth, exposure_growth}
use presign.Mappings.{Viem}
use presign.Engine.{◌>>=◌}

abbrev pub eip1967_implementation_slot : String
eip1967_implementation_slot = "0x360894a13ba1a3210667c828492db98dca3e2076cc3735a920a3ca505d382bbc"

abbrev pub eip1967_admin_slot : String
eip1967_admin_slot = "0xb53127684a568b3173ae13b9f8a6016e243e63b6e8ee1178d6a717850b5d6103"

abbrev pub eip1967_beacon_slot : String
eip1967_beacon_slot = "0xa3f0ad74e5423aebfd80d3ef4346578335a9a72aeaee59ff6cb3582b35133d50"

abbrev pub zeppelinos_implementation_slot : String
zeppelinos_implementation_slot =
    "0x7050c9e0f4ca769c69bd3a8ef740bc37934f8e2c036e5a723fd8ee048ed3f8c3"

abbrev pub zeppelinos_admin_slot : String
zeppelinos_admin_slot = "0x10d6a54a4754c8869d6886b5f5d7fbfa5b4522237ea5c60d11bc4e7a1ff9390b"

-- Each slot with its standard.
abbrev pub implementation_slots : List (String × String)
implementation_slots =
    (eip1967_implementation_slot, "EIP-1967") ∷ (zeppelinos_implementation_slot, "zeppelinos") ∷ []

abbrev pub admin_slots : List String
admin_slots = eip1967_admin_slot ∷ zeppelinos_admin_slot ∷ []

-- Each selector with its flavour.
abbrev pub timelock_selectors : List (String × String)
timelock_selectors =
    ("0xf27a0c92", "OpenZeppelin TimelockController") ∷ ("0x6a42b8f8", "Compound Timelock") ∷ []

abbrev pub meaningful_delay_seconds : ℕ
meaningful_delay_seconds = 86400

-- One digit of a number in hexadecimal.
unfoldable pub hex_char : ℕ → Char
hex_char n = elim (ltb n 8) [
  | true ↦
      if eqb n 0
      then "0"
      else if eqb n 1
      then "1"
      else if eqb n 2
      then "2"
      else if eqb n 3
      then "3"
      else if eqb n 4
      then "4"
      else if eqb n 5
      then "5"
      else if eqb n 6
      then "6"
      else "7"
  | false ↦
      if eqb n 8
      then "8"
      else if eqb n 9
      then "9"
      else if eqb n 10
      then "a"
      else if eqb n 11
      then "b"
      else if eqb n 12
      then "c"
      else if eqb n 13
      then "d"
      else if eqb n 14
      then "e"
      else "f"
]

-- The last `width` hexadecimal digits of a number, before a text.
unfoldable pub hex_digits : ℕ → ℕ → String → String
unfolding hex_char
hex_digits zero n s = s
hex_digits (suc width) n s = hex_digits width (n / 16) (String.◌∷◌ (hex_char (n % 16)) s)

-- wordToAddress: the low 20 bytes of a word, unless they are zero
unfoldable pub word_to_address : Option ℕ → Option String
unfolding hex_digits
word_to_address none = none
word_to_address (some word) =
    if eqb (word % 2 ^ 160) 0 then none else some (String.◌++◌ "0x" (hex_digits 40 word ""))

-- The loop of upgradedInTransaction, over the slots with their standards.
unfoldable pub written_slot :
    List (String × ℕ) → List (String × String) → Option (String × Option String)
unfolding field word_to_address
written_slot slots [] = none
written_slot slots ((slot, standard) ∷ rest) = elim (field slot slots) [
  | some word ↦ some (slot, word_to_address (some word))
  | none ↦ written_slot slots rest
]

-- upgradedInTransaction
unfoldable pub upgraded_in_transaction : StateDiff → String → Option (String × Option String)
unfolding written_slot storage
upgraded_in_transaction diff target = elim (storage target diff.post) [
  | none ↦ none
  | some slots ↦ written_slot slots implementation_slots
]

pub record Upgrade : Type 0 where
  pub block : ℕ
  -- in seconds
  pub timestamp : ℕ
  pub implementation : String

pub record UpgradeHistory : Type 0 where
  pub last_upgrade : String → Option Upgrade
  pub watched_since : Option ℕ
  pub live : Option Bool

-- MutableLogicRuleOptions, with its defaults
pub record Options : Type 0 where
  pub allowlist : List String
  pub meaningful_delay_seconds : ℕ
  pub upgrade_history : Option UpgradeHistory
  pub recent_upgrade_seconds : ℕ
  -- what `now()` answers, in milliseconds
  pub now : ℕ

pub record Proxy : Type 0 where
  pub implementation : String
  pub implementation_slot : String
  pub standard : String
  pub admin : Option String

-- The inner loop of #readProxy: the first admin slot that holds an address.
unfoldable pub read_admin : RuleContext → String → List String → Settled (Option String)
unfolding word_to_address
read_admin ctx address [] = value none
read_admin ctx address (slot ∷ rest) = ctx.get_storage_at address slot >>= λ word.
    elim (word_to_address (some word)) [
      | some admin ↦ value (some admin)
      | none ↦ read_admin ctx address rest
    ]

-- A beacon keeps the implementation one hop away.
unfoldable pub read_beacon : RuleContext → String → Settled (Option Proxy)
unfolding word_to_address
read_beacon ctx address = ctx.get_storage_at address eip1967_beacon_slot >>= λ word.
    elim (word_to_address (some word)) [
      | none ↦ value none
      | some beacon ↦ value (
          some (record {
            implementation = beacon;
            implementation_slot = eip1967_beacon_slot;
            standard = "EIP-1967 beacon";
            admin = none;
          }))
    ]

-- The outer loop of #readProxy, and the beacon after it.
unfoldable pub read_slots : RuleContext → String → List (String × String) → Settled (Option Proxy)
unfolding read_admin read_beacon word_to_address
read_slots ctx address [] = read_beacon ctx address
read_slots ctx address ((slot, standard) ∷ rest) = ctx.get_storage_at address slot >>= λ word.
    elim (word_to_address (some word)) [
      | none ↦ read_slots ctx address rest
      | some implementation ↦ read_admin ctx address admin_slots >>= λ admin. value (
          some (record {
            implementation = implementation;
            implementation_slot = slot;
            standard = standard;
            admin = admin;
          }))
    ]

-- #readProxy
unfoldable pub read_proxy : RuleContext → String → Settled (Option Proxy)
unfolding read_slots
read_proxy ctx address = read_slots ctx address implementation_slots
