-- ===== src/Base/Text.antt =====
-- Python's `str` and `bytes` as lists of numbers: code points, and bytes.
use Prim.Native.Char.{code}
use Prim.Native.String.{String}
pub mod Laws
pub mod Decimal
use dev_tools_distribution_p.Base.Tests.{ltb, leb, if◌then◌else◌, Eq, ◌==◌, nat_eq, Bool-cases}
use dev_tools_distribution_p.Base.Lists.{length, drop, all, In}
use Prim.Native.Nat.{ℕ, zero, suc, ◌+◌, ◌-◌, ◌*◌, ◌/◌, ◌%◌, ◌<◌, ◌≤◌}
use mathlib.Core.Path.{◌≡◌, refl, ap, ◌∙◌}
use mathlib.Core.Logic.{◌≢◌, ◌⊎◌, inl, inr}
use mathlib.Core.Bool.{Bool, true, false, not, ◌&&◌, ◌||◌}
use mathlib.Core.Option.{Option, none, some}
use mathlib.Core.List.{List, [], ◌∷◌, ◌++◌}
use native.Mathlib.Omega.{arith}

abbrev pub Str : Type 0
Str = List ℕ

abbrev pub Bytes : Type 0
Bytes = List ℕ

-- The code points of a literal.
abbrev pub text : String → Str
text String.[] = []
text (String.◌∷◌ c s) = code c ∷ text s

abbrev pub slash : ℕ
slash = b'/'

abbrev pub newline : ℕ
newline = 10

-- `value.startswith(prefix)`
unfoldable pub starts_with : Str → Str → Bool
starts_with s [] = true
starts_with [] (c ∷ p) = false
starts_with (d ∷ s) (c ∷ p) = d == c && starts_with s p

-- `sep in value`, for one character
unfoldable pub contains_char : ℕ → Str → Bool
contains_char c [] = false
contains_char c (d ∷ s) = d == c || contains_char c s

abbrev add_to_head : ℕ → List Str → List Str
add_to_head d [] = (d ∷ []) ∷ []
add_to_head d (part ∷ parts) = (d ∷ part) ∷ parts

-- `value.split(sep)`, for one character
unfoldable pub split : ℕ → Str → List Str
split c [] = [] ∷ []
split c (d ∷ s) = let rest = split c s in if d == c then [] ∷ rest else add_to_head d rest

-- `sep.join(parts)`, for one character
unfoldable pub join : ℕ → List Str → Str
join c [] = []
join c (part ∷ []) = part
join c (part ∷ next ∷ parts) = part ++ c ∷ join c (next ∷ parts)

-- What `$` lets stand before it: the text without one final newline.
unfoldable pub chomp : Str → Str
chomp [] = []
chomp (c ∷ []) = if c == newline then [] else c ∷ []
chomp (c ∷ d ∷ s) = c ∷ chomp (d ∷ s)

is_upper : ℕ → Bool
is_upper c = leb b'A' c && leb c b'Z'

is_lower : ℕ → Bool
is_lower c = leb b'a' c && leb c b'z'

-- `[0-9]`
unfoldable pub is_decimal : ℕ → Bool
is_decimal c = leb b'0' c && leb c b'9'

-- `[a-z0-9]`
unfoldable pub is_lower_alnum : ℕ → Bool
unfolding is_lower is_decimal
is_lower_alnum c = is_lower c || is_decimal c

-- `[A-Za-z0-9]`
unfoldable pub is_alnum : ℕ → Bool
unfolding is_upper is_lower_alnum
is_alnum c = is_upper c || is_lower_alnum c

-- `value.encode()` of one character, in UTF-8
encode_char : ℕ → Bytes
encode_char c =
    if ltb c 0x80
    then c ∷ []
    else if ltb c 0x800
    then (0xc0 + c / 64) ∷ (0x80 + c % 64) ∷ []
    else if ltb c 0x10000
    then (0xe0 + c / 4096) ∷ (0x80 + c / 64 % 64) ∷ (0x80 + c % 64) ∷ []
    else (0xf0 + c / 262144) ∷ (0x80 + c / 4096 % 64) ∷ (0x80 + c / 64 % 64) ∷ (0x80 + c % 64) ∷ []

-- `value.encode()`
unfoldable pub encode : Str → Bytes
unfolding encode_char
encode [] = []
encode (c ∷ s) = encode_char c ++ encode s

-- `%d`, one division for each digit: there are at most as many digits as the number and one.
unfoldable pub digits : ℕ → ℕ → Bytes
digits zero n = []
digits (suc fuel) n =
    let rest = digits fuel (n / 10) in
    if ltb n 10 then (b'0' + n) ∷ [] else rest ++ (b'0' + n % 10) ∷ []

unfoldable pub decimal : ℕ → Bytes
unfolding digits
decimal n = digits (suc n) n
