-- ===== src/MutableLogic/Tests.antt =====
-- A call of a proxy whose admin is a contract without a timelock.
use mathlib.Core.List.{Memᴰ}
use presign.Prelude.{
  ◌≡◌, ◌⊎◌, inl, refl, String, false, ◌==◌, some, none, [], ◌∷◌, lower, string_eq, if◌then◌else◌,
}
use presign.Types.{StateDiff, low, high, value, field}
use presign.Effects.{storage, balance}
use presign.Mappings.Tests.{plain_viem}
use presign.Exposure.{exposure_growth, exposure_reasons, increased_slots, sends_eth, token_reasons}
use presign.Engine.{
  VerdictEngine, evaluate, judge, tier_of, fold_tier, higher, capped, contribution, collect,
  collect_one, note_revert, outcome_of, context,
}
use presign.Engine.Tests.{engine, diff, plain_tx}
use presign.MutableLogic.{
  Options, Proxy, eip1967_implementation_slot, eip1967_admin_slot, read_proxy, read_slots,
  read_admin, word_to_address, hex_digits, hex_char, upgraded_in_transaction,
}
use presign.MutableLogic.Evaluate as R2
use presign.MutableLogic.Evaluate.{
  Control, no_timelock, mutable_logic, classify_admin, find_timelock, delay_of, history_findings,
  judge_read, judge_proxy, judge_admin, upgrade_findings, control_finding,
}
use presign.MutableLogic.Upgrades.{upgrade_high}
use presign.MutableLogic.Exposed.{IsSettled, low_unexposed}
use presign.MutableLogic.Delays.{IsDelayed}

abbrev options : Options
options = record {
  allowlist = [];
  meaningful_delay_seconds = 86400;
  upgrade_history = none;
  recent_upgrade_seconds = 86400;
  now = 0;
}

abbrev proxy : Proxy
proxy = record {
  implementation = "0x0000000000000000000000000000000000000012";
  implementation_slot = eip1967_implementation_slot;
  standard = "EIP-1967";
  admin = some "0x0000000000000000000000000000000000000034";
}

abbrev engine_of : StateDiff → VerdictEngine
engine_of d = record engine {
  simulator = record engine.simulator {
    simulate = λ tx. value d;
    get_storage_at = λ address slot. value (
        if slot == eip1967_implementation_slot
        then 18
        else if slot == eip1967_admin_slot
        then 52
        else 0);
    get_code = λ address. value "0x6001";
    call = λ address calldata. value none;
  };
  rules = mutable_logic plain_viem options ∷ [];
}

abbrev upgrading : StateDiff
upgrading = record diff {
  post =
      (
        "0xbb",
        record {
          balance = none;
          nonce = none;
          code = none;
          storage = some ((eip1967_implementation_slot, 7) ∷ []);
        },
      )
      ∷ [];
}

read_of :
    (d : StateDiff)
    → read_proxy (context plain_viem (engine_of d) plain_tx d) "0xbb" ≡ value (some proxy)
unfolding read_proxy read_slots read_admin word_to_address hex_digits hex_char context
read_of d = refl

answers :
    (admin : String)
    → proxy.admin ≡ some admin
    → (control : Control) × (classify_admin options
          (context plain_viem (engine_of upgrading) plain_tx upgrading)
          admin
        ≡ value control)
unfolding classify_admin find_timelock delay_of context
answers admin h = (no_timelock, refl)

upgrading_verdict :
    evaluate plain_viem (engine_of upgrading) plain_tx
    ≡ value (judge plain_viem (engine_of upgrading) plain_tx upgrading)
unfolding evaluate
upgrading_verdict = refl

upgrade_high_example : (judge plain_viem (engine_of upgrading) plain_tx upgrading).tier ≡ high
unfolding lower storage field
upgrade_high_example =
    upgrade_high plain_viem (engine_of upgrading) plain_tx 1 upgrading
      (judge plain_viem (engine_of upgrading) plain_tx upgrading) options "0xbb"
      eip1967_implementation_slot proxy ((eip1967_implementation_slot, 7) ∷ []) 7 refl refl refl
      upgrading_verdict (Memᴰ.head refl) refl (read_of upgrading) answers refl refl (inl refl)

plain_verdict :
    evaluate plain_viem (engine_of diff) plain_tx
    ≡ value (judge plain_viem (engine_of diff) plain_tx diff)
unfolding evaluate
plain_verdict = refl

plain_low : (judge plain_viem (engine_of diff) plain_tx diff).tier ≡ low
unfolding judge tier_of fold_tier higher capped contribution collect collect_one note_revert
    outcome_of field R2.evaluate judge_read judge_proxy judge_admin read_proxy read_slots read_admin
    word_to_address hex_digits hex_char context lower upgrade_findings upgraded_in_transaction
    storage history_findings classify_admin find_timelock delay_of exposure_growth exposure_reasons
    sends_eth balance token_reasons increased_slots control_finding
plain_low = refl

low_unexposed_example :
    (upgraded_in_transaction diff "0xbb" ≡ none)
    × IsSettled options "0xbb"
    × (IsDelayed options
          (context plain_viem (engine_of diff) plain_tx diff)
          "0x0000000000000000000000000000000000000034"
        ⊎ ((exposure_growth plain_viem plain_tx diff "0xbb").grows ≡ false))
unfolding lower field
low_unexposed_example =
    low_unexposed plain_viem (engine_of diff) plain_tx 1 diff
      (judge plain_viem (engine_of diff) plain_tx diff) options "0xbb"
      "0x0000000000000000000000000000000000000034" proxy refl refl plain_verdict (Memᴰ.head refl)
      refl refl (read_of diff) refl refl plain_low
