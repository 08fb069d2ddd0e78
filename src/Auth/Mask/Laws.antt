-- ===== src/Auth/Mask/Laws.antt =====
-- The decimal print, read back.
use deelp_pkg.Auth.Mask.{itoa, itoa_from}
use deelp_pkg.Texto.{Texto, is_ascii_digit, vazio}
use deelp_pkg.Texto.Inteiro.{valor_de, digitos, atoi}
use deelp_pkg.Prelude.{
  [], ◌∷◌, zero, suc, true, false, pos, inl, inr, refl, ◌==◌, ℕ, all, ◌<◌, ◌≡◌, Bool-cases, ◌^◌,
  arith, ◌/◌, ◌*◌, ◌+◌, ◌%◌, ◌-◌, ◌∙◌, ltb, Bool, ap, if◌then◌else◌,
}

-- With fuel for its digits the number is in front of the buffer.
valor_de-itoa_from :
    (fuel n : ℕ) (buf : Texto) → n < 10 ^ fuel → valor_de 0 (itoa_from fuel n buf) ≡ valor_de n buf
unfolding itoa_from
valor_de-itoa_from zero n buf h = let e : n ≡ 0 = omega arith in rw e refl
valor_de-itoa_from (suc fuel) n buf h = elim (Bool-cases (n == 0)) [
  | inl e ↦ rw e (let z : n ≡ 0 = ground arith in rw z refl)
  | inr e ↦
      let d : 10 * (n / 10) + (b'0' + n % 10 - b'0') ≡ n = omega arith in
      rw e (valor_de-itoa_from fuel (n / 10) ((b'0' + n % 10) ∷ buf) (omega arith) ∙ rw d refl)
]

digitos-itoa_from :
    (fuel n : ℕ) (buf : Texto)
    → all is_ascii_digit buf ≡ true
    → all is_ascii_digit (itoa_from fuel n buf) ≡ true
unfolding itoa_from
digitos-itoa_from zero n buf h = h
digitos-itoa_from (suc fuel) n buf h = elim (Bool-cases (n == 0)) [
  | inl e ↦ rw e h
  | inr e ↦ rw e (digitos-itoa_from fuel (n / 10) ((b'0' + n % 10) ∷ buf) (ground arith))
]

cheio-itoa_from :
    (fuel n : ℕ) (buf : Texto) → vazio buf ≡ false → vazio (itoa_from fuel n buf) ≡ false
unfolding itoa_from
cheio-itoa_from zero n buf h = h
cheio-itoa_from (suc fuel) n buf h = elim (Bool-cases (n == 0)) [
  | inl e ↦ rw e h
  | inr e ↦ rw e (cheio-itoa_from fuel (n / 10) ((b'0' + n % 10) ∷ buf) refl)
]

atoi-digitos :
    (s : Texto) (n : ℕ)
    → digitos s ≡ true
    → valor_de 0 s ≡ n
    → n < 2 ^ 63
    → atoi s ≡ record { valor = pos n; erro = false }
unfolding atoi
atoi-digitos [] n h k l = absurd (ground arith)
atoi-digitos (c ∷ s) n h k l =
    let a : (c == b'-') ≡ false = ground arith in
    let b : (c == b'+') ≡ false = ground arith in
    let m : ltb n (2 ^ 63) ≡ true = ground arith in rw (a, b, h, k, m) refl

digitos_de : (fuel n : ℕ) → (n == 0) ≡ false → digitos (itoa_from (suc fuel) n []) ≡ true
unfolding itoa_from
digitos_de fuel n e =
    rw
      (
        e,
        cheio-itoa_from fuel (n / 10) ((b'0' + n % 10) ∷ []) refl,
        digitos-itoa_from fuel (n / 10) ((b'0' + n % 10) ∷ []) (ground arith),
      )
      refl

escolhido : (b : Bool) (s t : Texto) → b ≡ false → (if b then s else t) ≡ t
escolhido b s t e = rw e refl

itoa-itoa_from : (n : ℕ) → (n == 0) ≡ false → itoa n ≡ itoa_from 20 n []
unfolding itoa
itoa-itoa_from n e = escolhido (n == 0) _ _ e

itoa_zero : atoi (itoa 0) ≡ record { valor = pos 0; erro = false }
unfolding itoa atoi
itoa_zero = refl

-- The fuel is enough for every int that is not negative: its decimal print has all its digits, and
-- `strconv.Atoi` reads it back without an error.
pub atoi-itoa : (n : ℕ) → n < 2 ^ 63 → atoi (itoa n) ≡ record { valor = pos n; erro = false }
atoi-itoa n h = elim (Bool-cases (n == 0)) [
  | inl e ↦ zero_lido n h (ground arith)
  | inr e ↦
      ap atoi (itoa-itoa_from n e)
      ∙ atoi-digitos (itoa_from 20 n []) n (digitos_de 19 n e)
          (valor_de-itoa_from 20 n [] (omega arith)) h
]
  where
    zero_lido :
        (n : ℕ) → n < 2 ^ 63 → n ≡ 0 → atoi (itoa n) ≡ record { valor = pos n; erro = false }
    zero_lido n h z = rw z itoa_zero

digitos-itoa_zero : all is_ascii_digit (itoa 0) ≡ true
unfolding itoa
digitos-itoa_zero = refl

pub digitos-itoa : (n : ℕ) → all is_ascii_digit (itoa n) ≡ true
digitos-itoa n = elim (Bool-cases (n == 0)) [
  | inl e ↦ let z : n ≡ 0 = ground arith in rw z digitos-itoa_zero
  | inr e ↦ ap (all is_ascii_digit) (itoa-itoa_from n e) ∙ digitos-itoa_from 20 n [] refl
]
