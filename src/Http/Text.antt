-- ===== src/Http/Text.antt =====
-- What the middleware and the validators use of the package strings, on code points. Lower case is
-- exact where the result is compared with a text of ASCII letters: a letter outside ASCII whose lower
-- case is one is the dotted capital I or the Kelvin sign.
use notification_server.Base.{
  ℕ, ◌+◌, String, Bool, true, false, ◌&&◌, ◌||◌, Option, none, some, List, [], ◌∷◌, ◌==◌, nat_eq,
  leb, if◌then◌else◌,
}
use Prim.Native.Char.{Char, code}

abbrev pub codes : String → List ℕ
codes String.[] = []
codes (String.◌∷◌ c s) = code c ∷ codes s

abbrev pub between : ℕ → ℕ → ℕ → Bool
between a b c = leb a c && leb c b

-- `unicode.IsSpace`
unfoldable pub is_space : ℕ → Bool
is_space c =
    between 9 13 c
    || c == 32
    || c == 133
    || c == 160
    || c == 5760
    || between 8192 8202 c
    || between 8232 8233 c
    || c == 8239
    || c == 8287
    || c == 12288

abbrev pub lower : ℕ → ℕ
lower c = if between 65 90 c then c + 32 else if c == 304 then 105 else if c == 8490 then 107 else c

-- `strings.ToLower`, character by character.
abbrev pub to_lower : List ℕ → List ℕ
to_lower [] = []
to_lower (c ∷ cs) = lower c ∷ to_lower cs

abbrev pub trim_left : List ℕ → List ℕ
trim_left [] = []
trim_left (c ∷ cs) = let rest = trim_left cs in if is_space c then rest else c ∷ cs

abbrev pub keep : ℕ → List ℕ → List ℕ
keep c [] = if is_space c then [] else c ∷ []
keep c (d ∷ ds) = c ∷ d ∷ ds

abbrev pub trim_right : List ℕ → List ℕ
trim_right [] = []
trim_right (c ∷ cs) = keep c (trim_right cs)

-- `strings.TrimSpace`
abbrev pub trim_space : List ℕ → List ℕ
trim_space cs = trim_right (trim_left cs)

-- `strings.Split(s, sep)[0]`, with the separator one character.
abbrev pub first_part : ℕ → List ℕ → List ℕ
first_part sep [] = []
first_part sep (c ∷ cs) = let rest = first_part sep cs in if c == sep then [] else c ∷ rest

abbrev pub after_first : Char → Option (String × String) → Option (String × String)
after_first c none = none
after_first c (some (s, t)) = some (String.◌∷◌ c s, t)

-- `strings.SplitN(s, " ", 2)`, where it gives two parts.
abbrev pub split_two : String → Option (String × String)
split_two String.[] = none
split_two (String.◌∷◌ c s) =
    let rest = split_two s in if code c == 32 then some ("", s) else after_first c rest

abbrev same_codes : List ℕ → List ℕ → Bool
same_codes [] [] = true
same_codes (c ∷ cs) (d ∷ ds) = c == d && same_codes cs ds
same_codes _ _ = false

-- Code points against a text.
abbrev pub reads : List ℕ → String → Bool
reads cs s = same_codes cs (codes s)
