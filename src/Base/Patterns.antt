-- ===== src/Base/Patterns.antt =====
-- The regular expressions of the tools: a fixed prefix and a number of hexadecimal digits.
use Prim.Native.Nat.{ℕ, zero, suc}
use Prim.Native.Char.{code}
use Prim.Native.String.{String}
use mathlib.Core.Bool.{Bool, true, false, ◌&&◌, ◌||◌}
use mathlib.Core.Option.{Option, none, some}
use resq.Base.Tests.{nat_eq, leb, if◌then◌else◌}

-- what follows a prefix
unfoldable pub after : String → String → Option String
after String.[] s = some s
after (String.◌∷◌ c p) String.[] = none
after (String.◌∷◌ c p) (String.◌∷◌ d s) =
    let rest = after p s in if nat_eq (code c) (code d) then rest else none

-- `[0-9a-f]{n}`, and nothing else
unfoldable pub is_hex : ℕ → String → Bool
is_hex zero String.[] = true
is_hex zero (String.◌∷◌ c s) = false
is_hex (suc n) String.[] = false
is_hex (suc n) (String.◌∷◌ c s) =
    (leb 48 (code c) && leb (code c) 57 || leb 97 (code c) && leb (code c) 102) && is_hex n s

-- `re.fullmatch(prefix + "[0-9a-f]{n}", s)`
unfoldable pub is_prefixed_hex : String → ℕ → String → Bool
unfolding after is_hex
is_prefixed_hex prefix n s = elim (after prefix s) [ none ↦ false | some rest ↦ is_hex n rest ]
