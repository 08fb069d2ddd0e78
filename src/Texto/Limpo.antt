-- ===== src/Texto/Limpo.antt =====
-- Texts that trimming and filtering leave as they are.
use deelp_pkg.Texto.{
  Texto, Unicode, trim_left_by, trim_right_by, trim_space, is_space, is_digit, is_ascii_digit,
  byte_len,
}
use deelp_pkg.Prelude.{ℕ, [], ◌∷◌, true, false, refl, Bool, all, ◌≡◌, arith, keep, length, not, ltb}

trim_left_by-limpo :
    (cut : ℕ → Bool) (s : Texto) → all (λ c. not (cut c)) s ≡ true → trim_left_by cut s ≡ s
unfolding trim_left_by
trim_left_by-limpo cut [] h = refl
trim_left_by-limpo cut (c ∷ s) h = let e : cut c ≡ false = ground arith in rw e refl

trim_right_by-limpo :
    (cut : ℕ → Bool) (s : Texto) → all (λ c. not (cut c)) s ≡ true → trim_right_by cut s ≡ s
unfolding trim_right_by
trim_right_by-limpo cut [] h = refl
trim_right_by-limpo cut (c ∷ []) h = let e : cut c ≡ false = ground arith in rw e refl
trim_right_by-limpo cut (c ∷ d ∷ s) h =
    rw (trim_right_by-limpo cut (d ∷ s) (ground arith), trim_right_by) refl

-- `strings.TrimSpace` leaves a text without spaces as it is.
pub trim_space-limpo : (s : Texto) → all (λ c. not (is_space c)) s ≡ true → trim_space s ≡ s
unfolding trim_space
trim_space-limpo s h = rw (trim_left_by-limpo is_space s h) (trim_right_by-limpo is_space s h)

digito-ne-space : (c : ℕ) → is_ascii_digit c ≡ true → is_space c ≡ false
unfolding is_space
digito-ne-space c h = ground arith

pub digitos-limpos :
    (s : Texto) → all is_ascii_digit s ≡ true → all (λ c. not (is_space c)) s ≡ true
digitos-limpos [] h = refl
digitos-limpos (c ∷ s) h =
    let e = digito-ne-space c (ground arith) in
    let g = digitos-limpos s (ground arith) in ground arith

pub keep-digitos : (u : Unicode) (s : Texto) → all is_ascii_digit s ≡ true → keep (is_digit u) s ≡ s
unfolding is_digit
keep-digitos u [] h = refl
keep-digitos u (c ∷ s) h =
    let e : is_ascii_digit c ≡ true = ground arith in
    let l : ltb c 128 ≡ true = ground arith in rw (l, e, keep-digitos u s (ground arith)) refl

pub byte_len-digitos : (s : Texto) → all is_ascii_digit s ≡ true → byte_len s ≡ length s
unfolding byte_len
byte_len-digitos [] h = refl
byte_len-digitos (c ∷ s) h = ground (arith, byte_len-digitos s)
