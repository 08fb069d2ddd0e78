-- ===== src/Telefone.antt =====
-- telefone/whatsapp_br.go: Brazilian numbers in E.164 without the plus sign.
pub mod Laws
use deelp_pkg.Texto.{
  Texto, Unicode, codes, byte_len, has_prefix, is_digit, is_ascii_digit, trim_space,
}
use deelp_pkg.Prelude.{
  [], ◌&&◌, ◌||◌, ◌==◌, Bool, if◌then◌else◌, keep, drop, leb, not, all, ◌++◌, length,
}

-- `padraoWhatsAppBR.MatchString`: 55 and ten or eleven ASCII digits.
unfoldable pub eh_whatsapp_br_valido : Texto → Bool
eh_whatsapp_br_valido numero =
    let resto = drop 2 numero in
    has_prefix numero (codes "55")
    && all is_ascii_digit resto
    && (length resto == 10 || length resto == 11)

-- The number with the country's code before ten or eleven bytes.
unfoldable pub com_ddi : Texto → Texto
com_ddi numero =
    if leb 10 (byte_len numero) && leb (byte_len numero) 11 then codes "55" ++ numero else numero

-- `NormalizarWhatsAppBR`.
unfoldable pub normalizar_whatsapp_br : Unicode → Texto → Texto
normalizar_whatsapp_br u bruto =
    let numero = com_ddi (keep (is_digit u) (trim_space bruto)) in
    if not (eh_whatsapp_br_valido numero) then [] else numero
