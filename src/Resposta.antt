-- ===== src/Resposta.antt =====
-- The package `resposta`: the envelope of the answers and its status. A body is of any type `A`, where
-- Go has `any`; the JSON encoding is left out.
use deelp_pkg.Texto.{Texto, Unicode, codes, contains, to_lower}
use deelp_pkg.Http.Status
use deelp_pkg.Auth.Claims.{Contexto}
use deelp_pkg.Auth.Contexto.{empresa_id_do_contexto, usuario_id_do_contexto}
use deelp_pkg.Prelude.{
  [], true, false, none, some, refl, ◌||◌, Bool, ℕ, Option, if◌then◌else◌, not, ◌≡◌, ◌↔◌, arith,
}

-- `Corpo`; an absent content is `none`.
pub record Corpo (A : Type 0) : Type 0 where
  pub sucesso : Bool
  pub mensagem : Texto
  pub conteudo : Option A

-- What is written: a status and a body.
pub record Escrita (B : Type 0) : Type 0 where
  pub status : ℕ
  pub corpo : B

-- `Ok` and `Falha`.
abbrev pub ok_corpo : {A : Type 0} → A → Corpo A
ok_corpo conteudo = record { sucesso = true; mensagem = []; conteudo = some conteudo }

abbrev pub falha : {A : Type 0} → Texto → Corpo A
falha mensagem = record { sucesso = false; mensagem = mensagem; conteudo = none }

-- `EscreverJSON`.
abbrev pub escrever_json : {B : Type 0} → ℕ → B → Escrita B
escrever_json status corpo = record { status = status; corpo = corpo }

-- `EscreverErro`.
abbrev pub escrever_erro : {A : Type 0} → ℕ → Texto → Escrita (Corpo A)
escrever_erro status mensagem = escrever_json status (falha mensagem)

-- `EscreverSucesso`.
abbrev pub escrever_sucesso : {A : Type 0} → A → Escrita (Corpo A)
escrever_sucesso conteudo = escrever_json Status.ok (ok_corpo conteudo)

-- `StatusDoErro`.
unfoldable pub status_do_erro : Unicode → Texto → ℕ
status_do_erro u mensagem =
    let msg = to_lower u mensagem in
    if contains msg (codes "não encontrad") || contains msg (codes "nao encontrad")
    then Status.not_found
    else if contains msg (codes "não pode ser editad")
        || contains msg (codes "nao pode ser editad")
        || contains msg (codes "já exist")
        || contains msg (codes "ja exist")
        || contains msg (codes "conflito")
    then Status.conflict
    else Status.bad_request

-- `EscreverResultado`.
unfoldable pub escrever_resultado :
    {A : Type 0} → Unicode → Bool → Texto → Option A → Escrita (Corpo A)
escrever_resultado u sucesso mensagem conteudo =
    if sucesso
    then escrever_json Status.ok
        (record { sucesso = true; mensagem = mensagem; conteudo = conteudo })
    else escrever_erro (status_do_erro u mensagem) mensagem

-- `EscreverSaida` and `EscreverCriado`.
abbrev pub escrever_saida : {B : Type 0} → Bool → B → Escrita B
escrever_saida sucesso saida =
    escrever_json (if not sucesso then Status.bad_request else Status.ok) saida

abbrev pub escrever_criado : {B : Type 0} → Bool → B → Escrita B
escrever_criado sucesso saida =
    escrever_json (if not sucesso then Status.bad_request else Status.created) saida

-- Success is 200, and a failure is one of 404, 409 and 400, with the message and no content.
pub escrever_resultado-status :
    {A : Type 0} (u : Unicode) (sucesso : Bool) (mensagem : Texto) (conteudo : Option A)
    → let e = escrever_resultado u sucesso mensagem conteudo in
      (e.corpo.sucesso ≡ sucesso)
      × (e.corpo.mensagem ≡ mensagem)
      × ((sucesso ≡ true) ↔ (e.status ≡ Status.ok))
unfolding escrever_resultado status_do_erro
escrever_resultado-status u true mensagem conteudo = (refl, refl, ground arith)
escrever_resultado-status u false mensagem conteudo = (refl, refl, ground arith)

abbrev msg_sem_empresa : Texto
msg_sem_empresa = codes "Token sem vínculo de empresa. Selecione uma colaboração novamente."

abbrev msg_sem_usuario : Texto
msg_sem_usuario = codes "Token sem usuário válido."

-- `EmpresaIdDoToken` and `UsuarioIdDoToken`: the company and the user of the token, or a 403.
pub data DoToken (Uuid : Type 0) (A : Type 0) : Type 0 where
  negado : Escrita (Corpo A) → DoToken Uuid A
  do_token : Uuid → DoToken Uuid A

abbrev ou_negado : {Uuid A : Type 0} → Texto → Option Uuid → DoToken Uuid A
ou_negado mensagem none = negado (escrever_erro Status.forbidden mensagem)
ou_negado mensagem (some id) = do_token id

unfoldable pub empresa_id_do_token :
    {Uuid A : Type 0} → (Texto → Option Uuid) → Contexto → DoToken Uuid A
empresa_id_do_token parse ctx = ou_negado msg_sem_empresa (empresa_id_do_contexto parse ctx)

unfoldable pub usuario_id_do_token :
    {Uuid A : Type 0} → (Texto → Option Uuid) → Contexto → DoToken Uuid A
usuario_id_do_token parse ctx = ou_negado msg_sem_usuario (usuario_id_do_contexto parse ctx)
