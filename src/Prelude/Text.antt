-- ===== src/Prelude/Text.antt =====
-- JavaScript's string methods on hex and other ASCII text.
use Prim.Native.Nat.{ℕ, zero, suc, ◌/◌, ◌%◌}
use Prim.Native.Char.{Char, code}
use Prim.Native.String.{String, [], ◌∷◌}
use mathlib.Core.Bool.{Bool}
use mathlib.Core.List.{List}
use Prim.Native.String
use presign.Prelude.Tests.{if◌then◌else◌, eqb, ltb}

-- The letter beside `c` in the second text, or `c`.
swap_char : String → String → Char → Char
swap_char [] ls c = c
swap_char (u ∷ us) [] c = c
swap_char (u ∷ us) (l ∷ ls) c = if eqb (code u) (code c) then l else swap_char us ls c

-- `toLowerCase`, which on ASCII text maps the 26 capital letters and keeps the rest.
unfoldable pub lower : String → String
unfolding swap_char
lower [] = []
lower (c ∷ s) = swap_char "ABCDEFGHIJKLMNOPQRSTUVWXYZ" "abcdefghijklmnopqrstuvwxyz" c ∷ lower s

-- `s.slice(0, n)` and `s.slice(n)`
unfoldable pub text_take : ℕ → String → String
text_take zero s = []
text_take (suc n) [] = []
text_take (suc n) (c ∷ s) = c ∷ text_take n s

unfoldable pub text_drop : ℕ → String → String
text_drop zero s = s
text_drop (suc n) [] = []
text_drop (suc n) (c ∷ s) = text_drop n s

-- The characters of a text that pass a test, counted.
unfoldable pub count_chars : (ℕ → Bool) → String → ℕ
count_chars p [] = 0
count_chars p (c ∷ s) = let n = count_chars p s in if p (code c) then suc n else n

-- One decimal digit.
unfoldable pub digit : ℕ → Char
digit zero = "0"
digit (suc zero) = "1"
digit (suc (suc zero)) = "2"
digit (suc (suc (suc zero))) = "3"
digit (suc (suc (suc (suc zero)))) = "4"
digit (suc (suc (suc (suc (suc zero))))) = "5"
digit (suc (suc (suc (suc (suc (suc zero)))))) = "6"
digit (suc (suc (suc (suc (suc (suc (suc zero))))))) = "7"
digit (suc (suc (suc (suc (suc (suc (suc (suc zero)))))))) = "8"
digit _ = "9"

-- The digits of `n` before those in `s`; each round divides by ten.
unfoldable pub digits_before : ℕ → ℕ → String → String
unfolding digit
digits_before zero n s = s
digits_before (suc fuel) n s =
    let more = digits_before fuel (n / 10) (digit (n % 10) ∷ s) in
    if ltb n 10 then digit n ∷ s else more

-- `n.toString(10)`: a number has fewer digits than its successor.
unfoldable pub decimal : ℕ → String
unfolding digits_before
decimal n = digits_before (suc n) n ""

-- `s.padStart(width, "0")`, for the text of a number
unfoldable pub zeros_before : ℕ → String → String
zeros_before zero s = s
zeros_before (suc n) s = "0" ∷ zeros_before n s

-- One character before a text without trailing zeros.
unfoldable pub zero_tail : Char → String → String
zero_tail c [] = if eqb (code c) b'0' then [] else c ∷ []
zero_tail c (d ∷ s) = c ∷ d ∷ s

-- `s.replace(/0+$/, "")`
unfoldable pub strip_zeros : String → String
unfolding zero_tail
strip_zeros [] = []
strip_zeros (c ∷ s) = zero_tail c (strip_zeros s)

-- A template: its parts, joined.
unfoldable pub text_of : List String → String
text_of List.[] = ""
text_of (List.◌∷◌ s rest) = String.◌++◌ s (text_of rest)
