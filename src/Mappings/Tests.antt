-- ===== src/Mappings/Tests.antt =====
-- A stand-in for viem under which every slot can be computed: bytes are codes, and a hash is the
-- text of its bytes.
use presign.Prelude.{ℕ, ◌≡◌, refl, String, some, List, [], ◌∷◌, decimal, string_eq}
use presign.JsMap.{get}
use presign.Mappings.{Viem, mapping_entries, entry_slot}
use Prim.Native.String
use Prim.Native.Char.{code}

abbrev pub codes : String → List ℕ
codes String.[] = []
codes (String.◌∷◌ c s) = code c ∷ codes s

unfoldable pub digits : List ℕ → String
unfolding decimal
digits [] = ""
digits (b ∷ bs) = String.◌++◌ (decimal b) (digits bs)

abbrev pub plain_viem : Viem
plain_viem = record { hex_to_bytes = codes; keccak256 = digits }

entry_found :
    get (entry_slot plain_viem "0xbb" 2) (mapping_entries plain_viem ("0xbb" ∷ []) 3)
    ≡ some (record { key = "0xbb"; mapping_slot = 2 })
unfolding mapping_entries get digits
entry_found = refl
