-- ===== src/Secrets.antt =====
-- packages/secrets/src/resolver.ts: a secret from an ordered chain of sources.
pub mod Chain
mod Tests
use presign.Prelude.{ℕ, String, Option, none, some, List, [], ◌∷◌, ◌++◌, ltb, if◌then◌else◌}
use presign.Types.{Settled, value, rejected}

pub data SecretProtection : Type 0 where
  process hardware_rooted hardware : SecretProtection

-- PROTECTION_RANK
abbrev pub protection_rank : SecretProtection → ℕ
protection_rank process = 0
protection_rank hardware_rooted = 1
protection_rank hardware = 2

pub record SecretSource : Type 0 where
  pub name : String
  pub protection : SecretProtection
  pub get : String → Settled (Option String)

pub data Resolution : Type 0 where
  -- the value, and the name and the protection of the source
  resolved : String → String → SecretProtection → Resolution
  insufficient_protection : SecretProtection → SecretProtection → Resolution
  -- the names of the sources that were tried
  not_found : List String → Resolution
  -- a source's own failure
  failed : String → Resolution

-- The loop of `resolve`, with the names tried so far.
unfoldable pub resolve_from :
    SecretProtection → String → List String → List SecretSource → Resolution
resolve_from minimum ref tried [] = not_found tried
resolve_from minimum ref tried (s ∷ rest) = elim (s.get ref) [
  | rejected e ↦ failed e
  | value found ↦ elim found [
    | none ↦ resolve_from minimum ref (tried ++ s.name ∷ []) rest
    | some v ↦
        if ltb (protection_rank s.protection) (protection_rank minimum)
        then insufficient_protection s.protection minimum
        else resolved v s.name s.protection
  ]
]

-- SecretResolver.resolve
unfoldable pub resolve : List SecretSource → SecretProtection → String → Resolution
unfolding resolve_from
resolve sources minimum ref = resolve_from minimum ref [] sources
