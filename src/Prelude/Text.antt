-- ===== src/Prelude/Text.antt =====
-- What the program uses of Go's package strings, over the native text. Letter case is that of
-- ASCII; white space is Unicode's.
use Prim.Native.Char.{Char, code}
use Prim.Native.String.{String, compare, ◌++◌ as append}
use mathlib.Core.Bool.{Bool, true, ◌&&◌, ◌||◌}
use mathlib.Core.List.{List, [], ◌∷◌}
use text.Mathlib.Text.{◌==◌, is_lt, starts_with}
use lenz.Prelude.Tests.{leb, eqb, if◌then◌else◌}

-- `unicode.IsSpace`
is_space : Char → Bool
is_space c =
    let n = code c in
    (leb 9 n && leb n 13)
    || eqb n 32
    || eqb n 0x85
    || eqb n 0xa0
    || eqb n 0x1680
    || (leb 0x2000 n && leb n 0x200a)
    || eqb n 0x2028
    || eqb n 0x2029
    || eqb n 0x202f
    || eqb n 0x205f
    || eqb n 0x3000

trim_left : String → String
trim_left String.[] = ""
trim_left (String.◌∷◌ c s) = let rest = trim_left s in if is_space c then rest else String.◌∷◌ c s

all_space : String → Bool
all_space String.[] = true
all_space (String.◌∷◌ c s) = is_space c && all_space s

trim_right : String → String
trim_right String.[] = ""
trim_right (String.◌∷◌ c s) = if is_space c && all_space s then "" else String.◌∷◌ c (trim_right s)

-- `strings.TrimSpace`
unfoldable pub trim_space : String → String
unfolding is_space trim_left trim_right all_space
trim_space s = trim_right (trim_left s)

-- The letter of `to` that stands where `c` stands in `from`, or `c` itself.
exchange : String → String → Char → Char
exchange String.[] _ c = c
exchange (String.◌∷◌ f from) String.[] c = c
exchange (String.◌∷◌ f from) (String.◌∷◌ t to) c =
    if eqb (code f) (code c) then t else exchange from to c

map_chars : (Char → Char) → String → String
map_chars f String.[] = ""
map_chars f (String.◌∷◌ c s) = String.◌∷◌ (f c) (map_chars f s)

abbrev upper_letters : String
upper_letters = "ABCDEFGHIJKLMNOPQRSTUVWXYZ"

abbrev lower_letters : String
lower_letters = "abcdefghijklmnopqrstuvwxyz"

-- `strings.ToLower`
unfoldable pub to_lower : String → String
unfolding exchange map_chars
to_lower = map_chars (exchange upper_letters lower_letters)

-- `strings.ToUpper`
unfoldable pub to_upper : String → String
unfolding exchange map_chars
to_upper = map_chars (exchange lower_letters upper_letters)

-- `strings.Contains`
unfoldable pub contains : String → String → Bool
contains String.[] sub = sub == ""
contains (String.◌∷◌ c s) sub = starts_with (String.◌∷◌ c s) sub || contains s sub

-- `strings.Join`
unfoldable pub join : List String → String → String
join [] sep = ""
join (s ∷ []) sep = s
join (s ∷ t ∷ rest) sep = append s (append sep (join (t ∷ rest) sep))

-- `s < t`, the order of the code points.
abbrev pub text_ltb : String → String → Bool
text_ltb s t = is_lt (compare s t)
