-- ===== src/Auth/Mask.antt =====
-- auth/mask.go: the safe form of a token for logs, and the decimal print that it uses.
pub mod Laws
use deelp_pkg.Texto.{Texto, codes, vazio, byte_len, trim_prefix, trim_space}
use deelp_pkg.Prelude.{
  [], ◌∷◌, zero, suc, ◌==◌, if◌then◌else◌, ℕ, leb, ◌/◌, ◌++◌, ◌+◌, take, ◌%◌, drop, ◌-◌, ℤ, pos,
  negsuc,
}

-- The loop of `itoa` for n > 0, on fuel: the digits, most significant first.
unfoldable pub itoa_from : ℕ → ℕ → Texto → Texto
itoa_from zero n buf = buf
itoa_from (suc fuel) n buf =
    let rest = itoa_from fuel (n / 10) ((b'0' + n % 10) ∷ buf) in if n == 0 then buf else rest

-- `itoa` of a number that is not negative, as its callers give it; 20 digits are the buffer of the source.
unfoldable pub itoa : ℕ → Texto
unfolding itoa_from
itoa n = if n == 0 then codes "0" else itoa_from 20 n []

-- `itoa`; the least int, which is its own negative, is left out.
unfoldable pub itoa_int : ℤ → Texto
unfolding itoa
itoa_int (pos n) = itoa n
itoa_int (negsuc n) = b'-' ∷ itoa (suc n)

-- `MascararToken`, for a token of ASCII characters.
unfoldable pub mascarar_token : Texto → Texto
unfolding itoa
mascarar_token token =
    let t = trim_space (trim_prefix token (codes "Bearer ")) in
    let n = byte_len t in
    if vazio t
    then codes "<vazio>"
    else if leb n 12
    then codes "<curto:" ++ (itoa n ++ codes ">")
    else take 6 t ++ (codes "…(" ++ (itoa n ++ (codes ")…" ++ drop (n - 4) t)))
