-- ===== src/Prelude/Text.antt =====
-- Texts as bytes, and numbers as texts.
use Prim.Native.Char.{code}
use Prim.Native.String.{String}
use Prim.Native.Nat.{ℕ, zero, suc, ◌+◌, ◌/◌, ◌%◌}
use mathlib.Core.List.{List, [], ◌∷◌}
use s3res.Prelude.Tests.{ltb, if◌then◌else◌}
use s3res.Prelude.Int.{ℤ, pos, negsuc}

-- the bytes of a name
abbrev pub codes : String → List ℕ
codes String.[] = []
codes (String.◌∷◌ c s) = code c ∷ codes s

-- The decimal digits of a number in front of a text; the first argument bounds the number of digits.
unfoldable pub digits_before : ℕ → ℕ → List ℕ → List ℕ
digits_before zero n text = text
digits_before (suc fuel) n text =
    let more = digits_before fuel (n / 10) ((48 + n % 10) ∷ text) in
    if ltb n 10 then (48 + n) ∷ text else more

-- `%d`
unfoldable pub decimal : ℤ → List ℕ
decimal (pos n) = digits_before (suc n) n []
decimal (negsuc n) = b'-' ∷ digits_before (suc (suc n)) (suc n) []
