-- ===== src/Xmldsig/Passos.antt =====
-- What the chains of steps of xmldsig/signer.go need for a result.
use deelp_pkg.Xmldsig.{
  Resultado, ErroXml, rsa, outra, ok, erro, ou_erro, exigir, chave_rsa, ◌>>=◌, ◌>>◌, Chave,
}
use deelp_pkg.Prelude.{
  true, false, none, some, refl, Bool, Option, ◌≡◌, [], ◌∷◌, ◌||◌, not, ◌≢◌, ◌↔◌,
}
use deelp_pkg.Texto.{Texto, vazio}

pub >>=-eq-ok :
    {A B : Type 0} (m : Resultado A) (f : A → Resultado B) (b : B)
    → (m >>= f) ≡ ok b
    → (a : A) × (m ≡ ok a) × (f a ≡ ok b)
>>=-eq-ok (ok a) f b h = (a, refl, h)
>>=-eq-ok (erro e) f b h = absurd (cc)

pub >>-eq-ok :
    {A B : Type 0} (m : Resultado A) (n : Resultado B) (b : B)
    → (m >> n) ≡ ok b
    → ((a : A) × (m ≡ ok a)) × (n ≡ ok b)
>>-eq-ok (ok a) n b h = ((a, refl), h)
>>-eq-ok (erro e) n b h = absurd (cc)

pub ou_erro-eq-ok :
    {A : Type 0} (o : Option A) (e : ErroXml) (a : A) → ou_erro o e ≡ ok a → o ≡ some a
ou_erro-eq-ok none e a h = absurd (cc)
ou_erro-eq-ok (some b) e a h = cc

-- A step of a chain whose value is there.
pub passo :
    {A B : Type 0} (o : Option A) (e : ErroXml) (f : A → Resultado B) (b : B)
    → (ou_erro o e >>= f) ≡ ok b
    → (a : A) × (o ≡ some a) × (f a ≡ ok b)
passo none e f b h = absurd (cc)
passo (some a) e f b h = (a, refl, h)

pub passo_de_guarda :
    {B : Type 0} (t : Bool) (e : ErroXml) (m : Resultado B) (b : B)
    → (exigir t e >> m) ≡ ok b
    → (t ≡ true) × (m ≡ ok b)
passo_de_guarda true e m b h = (refl, h)
passo_de_guarda false e m b h = absurd (cc)

pub chave_rsa-eq-some : {K : Type 0} (c : Chave K) (a : K) → chave_rsa c ≡ some a → c ≡ rsa a
chave_rsa-eq-some (rsa b) a h = cc
chave_rsa-eq-some outra a h = absurd (cc)

pub exigir-eq-ok : (t : Bool) (e : ErroXml) → exigir t e ≡ ok tt → t ≡ true
exigir-eq-ok true e h = refl
exigir-eq-ok false e h = absurd (cc)

pub nao_vazio_iff : (t : Texto) → (not (vazio t) ≡ true) ↔ (t ≢ [])
nao_vazio_iff [] = (λ h. absurd (cc), λ h. absurd (h refl))
nao_vazio_iff (c ∷ t) = (λ h e. cc, λ h. refl)

pub completa_partes :
    (a b c : Texto) → not (vazio a || vazio b || vazio c) ≡ true → (a ≢ []) × (b ≢ []) × (c ≢ [])
completa_partes (a ∷ r) (b ∷ s) (c ∷ t) h = (λ e. cc, λ e. cc, λ e. cc)
completa_partes [] b c h = absurd (cc)
completa_partes (a ∷ r) [] c h = absurd (cc)
completa_partes (a ∷ r) (b ∷ s) [] h = absurd (cc)

pub partes_completa :
    (a b c : Texto) → a ≢ [] → b ≢ [] → c ≢ [] → not (vazio a || vazio b || vazio c) ≡ true
partes_completa (a ∷ r) (b ∷ s) (c ∷ t) f g h = refl
partes_completa [] b c f g h = absurd (f refl)
partes_completa (a ∷ r) [] c f g h = absurd (g refl)
partes_completa (a ∷ r) (b ∷ s) [] f g h = absurd (h refl)
