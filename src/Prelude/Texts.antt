-- ===== src/Prelude/Texts.antt =====
-- String literals and decimal numbers as the bytes of a string.
use Prim.Native.Nat.{ℕ, zero, suc, ◌+◌, ◌/◌, ◌%◌}
use Prim.Native.Char.{code}
use Prim.Native.String.{String, [] as empty, ◌∷◌ as ◌then◌}
use mathlib.Core.List.{[], ◌∷◌, ◌++◌}
use android_system_iorap.Prelude.Tests.{ltb, if◌then◌else◌}
use android_system_iorap.Prelude.Keys.{Text}

-- For literals of ASCII characters.
abbrev pub text : String → Text
text empty = []
text (c then s) = code c ∷ text s

abbrev pub digits : ℕ → ℕ → Text
digits zero n = []
digits (suc fuel) n =
    let rest = digits fuel (n / 10) in
    if ltb n 10 then (48 + n) ∷ [] else rest ++ (48 + n % 10) ∷ []

-- `ss << n`
unfoldable pub decimal : ℕ → Text
decimal n = digits (n + 1) n
