-- ===== src/Common/Text.antt =====
-- Texts: `String` where the code only compares and joins, its code points where the code walks it.
use Prim.Native.Nat.{ℕ}
use Prim.Native.Char.{code}
use Prim.Native.String.{String}
use mathlib.Core.Bool.{Bool, ◌&&◌, ◌||◌}
use mathlib.Core.List.{List, [], ◌∷◌}
use stellar_agent_spend_hub.Common.Tests.{leb}
use stellar_agent_spend_hub.Common.Lists.{length, all}
unfoldable pub use text.Mathlib.Text.{◌==◌ as str_eq}
pub use text.Mathlib.TextEquality.{eq_iff}
pub use text.Mathlib.TextPositions.{eq_refl}

abbrev pub Codes : Type 0
Codes = List ℕ

abbrev pub codes : String → Codes
codes String.[] = []
codes (String.◌∷◌ c s) = code c ∷ codes s

abbrev pub is_digit : ℕ → Bool
is_digit c = leb b'0' c && leb c b'9'

abbrev pub is_lower : ℕ → Bool
is_lower c = leb b'a' c && leb c b'z'

abbrev pub is_upper : ℕ → Bool
is_upper c = leb b'A' c && leb c b'Z'

-- `[a-f0-9]`
abbrev pub is_hex_lower : ℕ → Bool
is_hex_lower c = is_digit c || (leb b'a' c && leb c b'f')

-- `/^[class]{lo,hi}$/`
abbrev pub is_run : ℕ → ℕ → (ℕ → Bool) → Codes → Bool
is_run lo hi p s = leb lo (length s) && leb (length s) hi && all p s

-- `/^[a-f0-9]{64}$/`
unfoldable pub is_digest : String → Bool
is_digest s = is_run 64 64 is_hex_lower (codes s)
