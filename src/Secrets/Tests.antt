-- ===== src/Secrets/Tests.antt =====
-- A chain of two sources, the second a process environment.
use presign.Prelude.{◌≡◌, refl, none, some, [], ◌∷◌, ◌++◌, ltb, if◌then◌else◌}
use presign.Types.{value}
use presign.Secrets.{
  process, hardware, hardware_rooted, protection_rank, SecretSource, resolved,
  insufficient_protection, resolve,
}
use presign.Secrets.Chain.{resolve_first}

abbrev vault : SecretSource
vault = record { name = "ring"; protection = hardware; get = λ r. value none }

abbrev environment : SecretSource
environment = record { name = "env"; protection = process; get = λ r. value (some "k") }

too_weak :
    resolve (vault ∷ environment ∷ []) hardware_rooted "KEY"
    ≡ insufficient_protection process hardware_rooted
unfolding resolve
too_weak = refl

resolve_first_example : resolve ((vault ∷ []) ++ environment ∷ []) process "KEY" ≡ (
    if ltb (protection_rank process) (protection_rank process)
    then insufficient_protection process process
    else resolved "k" "env" process)
resolve_first_example = resolve_first process "KEY" (vault ∷ []) environment [] "k" (refl, tt) refl
