-- ===== src/Prelude/Text.antt =====
-- Texts: their code points, Python's order and `strip`, and the shape that every identifier
-- pattern of the program has: one character of a class, then at most so many of another.
use Prim.Native.Nat.{ℕ}
use Prim.Native.Char.{code}
use Prim.Native.String.{String, ◌++◌}
use mathlib.Core.Bool.{Bool, true, false, ◌&&◌, ◌||◌}
use mathlib.Core.List.{List, [], ◌∷◌}
use text.Mathlib.Text.{◌==◌}
use ai_native_content_agency.Prelude.Tests.{ltb, leb, eqb, if◌then◌else◌}
use ai_native_content_agency.Prelude.Tables.{length}

-- `ord` of each character.
abbrev pub codes : String → List ℕ
codes String.[] = []
codes (String.◌∷◌ c s) = code c ∷ codes s

abbrev pub is_empty : String → Bool
is_empty s = s == ""

unfoldable pub all_codes : (ℕ → Bool) → List ℕ → Bool
all_codes p [] = true
all_codes p (c ∷ cs) = p c && all_codes p cs

abbrev pub is_lower : ℕ → Bool
is_lower c = leb b'a' c && leb c b'z'

abbrev pub is_upper : ℕ → Bool
is_upper c = leb b'A' c && leb c b'Z'

abbrev pub is_digit : ℕ → Bool
is_digit c = leb b'0' c && leb c b'9'

abbrev pub is_alnum : ℕ → Bool
is_alnum c = is_lower c || is_upper c || is_digit c

-- `re.fullmatch` of `^[head][tail]{least,most}$`
match_codes : (ℕ → Bool) → (ℕ → Bool) → ℕ → ℕ → List ℕ → Bool
match_codes head tail least most [] = false
match_codes head tail least most (c ∷ cs) =
    head c && all_codes tail cs && leb least (length cs) && leb (length cs) most

unfoldable pub full_match : (ℕ → Bool) → (ℕ → Bool) → ℕ → ℕ → String → Bool
unfolding match_codes all_codes
full_match head tail least most s = match_codes head tail least most (codes s)

-- `re.fullmatch(r"^[a-f0-9]{64}$", s)`
unfoldable pub is_sha256 : String → Bool
unfolding all_codes
is_sha256 s =
    all_codes (λ c. is_digit c || leb b'a' c && leb c b'f') (codes s) && eqb (length (codes s)) 64

-- Python's order on texts: by code points, a prefix first.
unfoldable pub leb_codes : List ℕ → List ℕ → Bool
leb_codes [] _ = true
leb_codes (c ∷ cs) [] = false
leb_codes (c ∷ cs) (d ∷ ds) = ltb c d || eqb c d && leb_codes cs ds

unfoldable pub leb_str : String → String → Bool
unfolding leb_codes
leb_str s t = leb_codes (codes s) (codes t)

-- `str.isspace` of one character, the characters that `strip` removes.
abbrev pub is_space : ℕ → Bool
is_space c =
    leb 9 c && leb c 13
    || leb 28 c && leb c 32
    || eqb c 133
    || eqb c 160
    || eqb c 5760
    || leb 8192 c && leb c 8202
    || eqb c 8232
    || eqb c 8233
    || eqb c 8239
    || eqb c 8287
    || eqb c 12288

unfoldable pub lstrip : String → String
lstrip String.[] = ""
lstrip (String.◌∷◌ c s) = let rest = lstrip s in if is_space (code c) then rest else String.◌∷◌ c s

unfoldable pub rstrip : String → String
rstrip String.[] = ""
rstrip (String.◌∷◌ c s) =
    let rest = rstrip s in if is_empty rest && is_space (code c) then "" else String.◌∷◌ c rest

-- `s.strip()`
unfoldable pub strip : String → String
unfolding lstrip rstrip
strip s = rstrip (lstrip s)

-- `s + t`
abbrev pub join_text : String → String → String
join_text s t = s ++ t
