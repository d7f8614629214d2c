-- ===== src/Secrets/Chain.antt =====
-- The first source that holds a secret decides, and no later one can.
use presign.Prelude.{String, ◌≡◌, refl, none, some, List, [], ◌∷◌, ◌++◌, All, ltb, if◌then◌else◌}
use presign.Types.{value}
use presign.Secrets.{
  SecretProtection, protection_rank, SecretSource, resolved, insufficient_protection, resolve_from,
  resolve,
}

-- The source answers that it does not hold the secret.
abbrev pub Lacks : String → SecretSource → Type 0
Lacks ref s = s.get ref ≡ value none

skip :
    (minimum : SecretProtection) (ref : String) (tried : List String) (before : List SecretSource)
    (s : SecretSource) (after : List SecretSource) (v : String)
    → All (Lacks ref) before
    → s.get ref ≡ value (some v)
    → resolve_from minimum ref tried (before ++ s ∷ after) ≡ (
        if ltb (protection_rank s.protection) (protection_rank minimum)
        then insufficient_protection s.protection minimum
        else resolved v s.name s.protection)
unfolding resolve_from
skip minimum ref tried [] s after v h held = rw (held, resolve_from) refl
skip minimum ref tried (x ∷ before) s after v h held =
    rw (h.0, resolve_from) (skip minimum ref (tried ++ x.name ∷ []) before s after v h.1 held)

-- The first source that holds the secret decides: its value where its protection reaches the
-- minimum, and a refusal where it does not, whatever the sources after it hold.
pub resolve_first :
    (minimum : SecretProtection) (ref : String) (before : List SecretSource) (s : SecretSource)
    (after : List SecretSource) (v : String)
    → All (Lacks ref) before
    → s.get ref ≡ value (some v)
    → resolve (before ++ s ∷ after) minimum ref ≡ (
        if ltb (protection_rank s.protection) (protection_rank minimum)
        then insufficient_protection s.protection minimum
        else resolved v s.name s.protection)
unfolding resolve
resolve_first minimum ref before s after v h held = skip minimum ref [] before s after v h held
