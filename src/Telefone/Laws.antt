-- ===== src/Telefone/Laws.antt =====
-- What normalising a number gives.
use deelp_pkg.Telefone.{eh_whatsapp_br_valido, com_ddi, normalizar_whatsapp_br}
use deelp_pkg.Texto.{
  Texto, Unicode, codes, has_prefix, byte_len, is_ascii_digit, is_digit, trim_space, trim_left_by,
  trim_right_by,
}
use deelp_pkg.Texto.Limpo.{trim_space-limpo, digitos-limpos, keep-digitos, byte_len-digitos}
use deelp_pkg.Prelude.{
  [], ◌∷◌, true, ◌≡◌, all, ◌⊎◌, arith, ◌≤◌, length, inl, inr, refl, Bool-cases, ◌++◌, keep, ◌↔◌,
}
use mathlib.Core.Path.{subst}

-- A valid number has ASCII digits only, twelve or thirteen.
valido-digitos :
    (s : Texto)
    → eh_whatsapp_br_valido s ≡ true
    → (all is_ascii_digit s ≡ true) × (12 ≤ length s) × (length s ≤ 13)
unfolding eh_whatsapp_br_valido has_prefix
valido-digitos [] h = absurd (ground arith)
valido-digitos (a ∷ []) h = absurd (ground arith)
valido-digitos (a ∷ b ∷ s) h = (ground arith, ground arith, ground arith)

com_ddi_longo : (s : Texto) → 12 ≤ byte_len s → com_ddi s ≡ s
unfolding com_ddi
com_ddi_longo s h = ground arith

com_ddi_local : (s : Texto) → 10 ≤ byte_len s → byte_len s ≤ 11 → com_ddi s ≡ codes "55" ++ s
unfolding com_ddi
com_ddi_local s h k = ground arith

valido-fixo :
    (u : Unicode) (s : Texto) → eh_whatsapp_br_valido s ≡ true → normalizar_whatsapp_br u s ≡ s
unfolding normalizar_whatsapp_br
valido-fixo u s h =
    let (d, a, b) = valido-digitos s h in
    let l : com_ddi s ≡ s = com_ddi_longo s (omega (arith, byte_len-digitos s d)) in
    rw (trim_space-limpo s (digitos-limpos s d), keep-digitos u s d, l, h) refl

local_valido :
    (s : Texto)
    → all is_ascii_digit s ≡ true
    → 10 ≤ length s
    → length s ≤ 11
    → eh_whatsapp_br_valido (codes "55" ++ s) ≡ true
unfolding eh_whatsapp_br_valido has_prefix
local_valido s d h k = ground arith

-- Ten or eleven ASCII digits get the country's code.
local-com_ddi :
    (u : Unicode) (s : Texto)
    → all is_ascii_digit s ≡ true
    → 10 ≤ length s
    → length s ≤ 11
    → normalizar_whatsapp_br u s ≡ codes "55" ++ s
unfolding normalizar_whatsapp_br
local-com_ddi u s d h k =
    let l = byte_len-digitos s d in
    let e = com_ddi_local s (omega (arith, l)) (omega (arith, l)) in
    rw (trim_space-limpo s (digitos-limpos s d), keep-digitos u s d, e, local_valido s d h k) refl

vazio_ou_valido :
    (u : Unicode) (bruto : Texto)
    → (normalizar_whatsapp_br u bruto ≡ [])
      ⊎ (eh_whatsapp_br_valido (normalizar_whatsapp_br u bruto) ≡ true)
unfolding normalizar_whatsapp_br
vazio_ou_valido u bruto =
    elim (Bool-cases (eh_whatsapp_br_valido (com_ddi (keep (is_digit u) (trim_space bruto))))) [
      | inl v ↦ inr (rw v v)
      | inr v ↦ inl (rw v refl)
    ]

vazio-fixo : (u : Unicode) → normalizar_whatsapp_br u [] ≡ []
unfolding normalizar_whatsapp_br trim_space trim_left_by trim_right_by com_ddi byte_len
    eh_whatsapp_br_valido has_prefix
vazio-fixo u = refl

abbrev pub VazioOuValido : Texto → Type 0
VazioOuValido s = (s ≡ []) ⊎ (eh_whatsapp_br_valido s ≡ true)

VazioOuValido-fixo : (u : Unicode) (s : Texto) → VazioOuValido s → normalizar_whatsapp_br u s ≡ s
VazioOuValido-fixo u s (inl e) = rw e (vazio-fixo u)
VazioOuValido-fixo u s (inr v) = valido-fixo u s v

-- Whatever the text, what is published is empty or a valid number, and normalising it again changes nothing; the
-- texts that normalising leaves as they are are the empty one and the valid numbers.
pub normalizar_whatsapp_br-valido :
    (u : Unicode) (bruto : Texto)
    → VazioOuValido (normalizar_whatsapp_br u bruto)
      × (normalizar_whatsapp_br u (normalizar_whatsapp_br u bruto) ≡ normalizar_whatsapp_br u bruto)
      × ((normalizar_whatsapp_br u bruto ≡ bruto) ↔ VazioOuValido bruto)
normalizar_whatsapp_br-valido u bruto =
    let v = vazio_ou_valido u bruto in
    (v, VazioOuValido-fixo u _ v, (λ e. subst VazioOuValido e v, VazioOuValido-fixo u bruto))
