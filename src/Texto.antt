-- ===== src/Texto.antt =====
-- Go strings as the package uses them. A string is the list of its code points (valid UTF-8), which
-- `range` walks and `strings` works on; `byte_len` is Go's `len`. The Unicode tables past ASCII are
-- the record `Unicode`, which the definitions that read them take as an argument.
pub mod Laws
pub mod Inteiro
pub mod Limpo
use Prim.Native.Char.{code}
use deelp_pkg.Prelude.{
  ℕ, zero, suc, ◌+◌, ◌-◌, ◌≤◌, ◌<◌, String, Bool, true, false, not, ◌&&◌, ◌||◌, List, [], ◌∷◌, ◌++◌,
  ltb, leb, ◌==◌, if◌then◌else◌, length, drop, take,
}

abbrev pub Texto : Type 0
Texto = List ℕ

-- The code points of a literal.
abbrev pub codes : String → Texto
codes String.[] = []
codes (String.◌∷◌ c s) = code c ∷ codes s

-- `a == b` on strings.
unfoldable pub eq_texto : Texto → Texto → Bool
eq_texto [] [] = true
eq_texto [] (b ∷ bs) = false
eq_texto (a ∷ as_) [] = false
eq_texto (a ∷ as_) (b ∷ bs) = a == b && eq_texto as_ bs

-- `s == ""`.
abbrev pub vazio : Texto → Bool
vazio [] = true
vazio (_ ∷ _) = false

-- The bytes of one code point in UTF-8, and `len(s)`.
unfoldable pub rune_len : ℕ → ℕ
rune_len c = if ltb c 128 then 1 else if ltb c 2048 then 2 else if ltb c 65536 then 3 else 4

unfoldable pub byte_len : Texto → ℕ
unfolding rune_len
byte_len [] = 0
byte_len (c ∷ s) = rune_len c + byte_len s

-- `strings.HasPrefix`, `strings.HasSuffix`, `strings.Contains`.
unfoldable pub has_prefix : Texto → Texto → Bool
has_prefix s [] = true
has_prefix [] (b ∷ bs) = false
has_prefix (a ∷ s) (b ∷ bs) = a == b && has_prefix s bs

unfoldable pub has_suffix : Texto → Texto → Bool
unfolding eq_texto
has_suffix [] suf = vazio suf
has_suffix (c ∷ s) suf = eq_texto (c ∷ s) suf || has_suffix s suf

unfoldable pub contains : Texto → Texto → Bool
unfolding has_prefix
contains [] sub = vazio sub
contains (c ∷ s) sub = has_prefix (c ∷ s) sub || contains s sub

-- `strings.TrimPrefix`, `strings.TrimSuffix`.
unfoldable pub trim_prefix : Texto → Texto → Texto
unfolding has_prefix
trim_prefix s p = if has_prefix s p then drop (length p) s else s

unfoldable pub trim_suffix : Texto → Texto → Texto
unfolding has_suffix
trim_suffix s suf = if has_suffix s suf then take (length s - length suf) s else s

-- `strings.TrimLeftFunc`, `strings.TrimRightFunc`.
module _ (cut : ℕ → Bool) where
  unfoldable pub trim_left_by : Texto → Texto
  trim_left_by [] = []
  trim_left_by (c ∷ s) = let rest = trim_left_by s in if cut c then rest else c ∷ s

  unfoldable pub trim_right_by : Texto → Texto
  trim_right_by [] = []
  trim_right_by (c ∷ s) = elim (trim_right_by s) [
    | [] ↦ if cut c then [] else c ∷ []
    | d ∷ r ↦ c ∷ d ∷ r
  ]

-- `strings.TrimRight(s, "/")` and `strings.Trim(s, "/")`, the one cutset that the package uses.
abbrev pub is_slash : ℕ → Bool
is_slash c = c == b'/'

unfoldable pub trim_right_slash : Texto → Texto
unfolding trim_right_by
trim_right_slash s = trim_right_by is_slash s

unfoldable pub trim_slash : Texto → Texto
unfolding trim_left_by trim_right_by
trim_slash s = trim_right_by is_slash (trim_left_by is_slash s)

-- `unicode.IsSpace`, in full.
unfoldable pub is_space : ℕ → Bool
is_space c =
    leb 9 c && leb c 13
    || c == 32
    || c == 0x85
    || c == 0xa0
    || c == 0x1680
    || leb 0x2000 c && leb c 0x200a
    || c == 0x2028
    || c == 0x2029
    || c == 0x202f
    || c == 0x205f
    || c == 0x3000

-- `strings.TrimSpace`.
unfoldable pub trim_space : Texto → Texto
unfolding trim_left_by trim_right_by is_space
trim_space s = trim_right_by is_space (trim_left_by is_space s)

-- `strings.Split(s, sep)` at a separator of one character.
push_head : ℕ → List Texto → List Texto
push_head c [] = (c ∷ []) ∷ []
push_head c (p ∷ ps) = (c ∷ p) ∷ ps

unfoldable pub split : ℕ → Texto → List Texto
unfolding push_head
split sep [] = [] ∷ []
split sep (c ∷ s) = let rest = split sep s in if c == sep then [] ∷ rest else push_head c rest

-- `strings.Join(parts, sep)` at a separator of one character.
unfoldable pub join : ℕ → List Texto → Texto
join sep [] = []
join sep (p ∷ []) = p
join sep (p ∷ q ∷ ps) = p ++ (sep ∷ join sep (q ∷ ps))

-- The Unicode tables past ASCII: lower case, upper case, decimal digits, and which two runes fold to one
-- another where at least one of them is not ASCII.
pub record Unicode : Type 0 where
  pub lower : ℕ → ℕ
  pub upper : ℕ → ℕ
  pub digit : ℕ → Bool
  pub fold : ℕ → ℕ → Bool

abbrev pub is_ascii_upper : ℕ → Bool
is_ascii_upper c = leb b'A' c && leb c b'Z'

abbrev pub is_ascii_digit : ℕ → Bool
is_ascii_digit c = leb b'0' c && leb c b'9'

abbrev pub ascii_lower : ℕ → ℕ
ascii_lower c = if is_ascii_upper c then c + 32 else c

-- `unicode.IsDigit`.
unfoldable pub is_digit : Unicode → ℕ → Bool
is_digit u c = if ltb c 128 then is_ascii_digit c else u.digit c

-- `strings.ToLower`.
unfoldable pub rune_lower : Unicode → ℕ → ℕ
rune_lower u c = if ltb c 128 then ascii_lower c else u.lower c

unfoldable pub to_lower : Unicode → Texto → Texto
unfolding rune_lower
to_lower u [] = []
to_lower u (c ∷ s) = rune_lower u c ∷ to_lower u s

-- `strings.ToUpper`.
abbrev pub ascii_upper : ℕ → ℕ
ascii_upper c = if leb b'a' c && leb c b'z' then c - 32 else c

unfoldable pub to_upper : Unicode → Texto → Texto
to_upper u [] = []
to_upper u (c ∷ s) = (if ltb c 128 then ascii_upper c else u.upper c) ∷ to_upper u s

-- `strings.EqualFold`.
unfoldable pub rune_fold : Unicode → ℕ → ℕ → Bool
rune_fold u a b =
    if a == b
    then true
    else if ltb a 128 && ltb b 128
    then ascii_lower a == ascii_lower b
    else u.fold a b

unfoldable pub equal_fold : Unicode → Texto → Texto → Bool
unfolding rune_fold
equal_fold u [] [] = true
equal_fold u [] (b ∷ t) = false
equal_fold u (a ∷ s) [] = false
equal_fold u (a ∷ s) (b ∷ t) = rune_fold u a b && equal_fold u s t
