-- ===== src/Tests/Servicos.antt =====
-- The checkers, the clients and the months of a count at concrete inputs.
use deelp_pkg.Tests.{so_ascii, texto_discrete}
use deelp_pkg.Texto.{Texto, codes}
use deelp_pkg.Texto.Inteiro.{atoi}
use deelp_pkg.Auth.Mask.{itoa}
use deelp_pkg.Auth.Mask.Laws.{atoi-itoa}
use deelp_pkg.Auth.Claims.{background}
use deelp_pkg.TtlCache.{Cache, Item, new}
use deelp_pkg.TtlCache.Entries.{Entries}
use deelp_pkg.Authz.{
  PermissoesEmCache, permissoes_zero, HttpChecker, Enviar, tem_permissao, invalidar,
}
use deelp_pkg.Authz.Laws.{invalidar-consulta}
use deelp_pkg.Assinatura.HttpChecker.{
  HttpCheckerContrato, EntradaContrato, RespostaContrato, entrada_zero, contrato_ativo,
}
use deelp_pkg.Assinatura.HttpChecker.Laws.{Fresca, contrato_ativo-Fresca}
use deelp_pkg.TtlCache.Load.{Answer}
use deelp_pkg.Clientes.S3.{Aws, configurar_cors, aparadas, Configura, configurar_cors-Configura}
use deelp_pkg.Consumo.{Instante, competencia_de, intervalo}
use deelp_pkg.Consumo.Laws.{IsData, Entre, intervalo-Entre}
use deelp_pkg.Prelude.{
  [], ◌∷◌, none, some, true, false, pos, refl, List, Option, arith, ℕ, ◌≡◌, ◌+◌, ◌↔◌,
}
use deelp_pkg.Mensageria.Gerenciador.{
  Biblioteca, Estado, ao_longo, novo_gerenciador, ao_evento, channel, conectar, registro_de, queda,
  tentativa, EventoDeConexao,
}
use deelp_pkg.Mensageria.Gerenciador.Laws.{ao_longo-channel}

abbrev mil_e_cinco : ℕ
mil_e_cinco = 1005

atoi-itoa_example : atoi (itoa mil_e_cinco) ≡ record { valor = pos mil_e_cinco; erro = false }
atoi-itoa_example = atoi-itoa mil_e_cinco (omega arith)

abbrev vigencia_teste : Item PermissoesEmCache
vigencia_teste = record {
  value = record { usuario_id = codes "u"; permissoes = [] };
  expires_at = 10;
}

-- A cache with the permissions of the user u.
abbrev cache_teste : Cache Texto PermissoesEmCache
cache_teste = record { capacity = 5; items = (codes "u", vigencia_teste) ∷ []; inflight = [] }

abbrev checker_teste : HttpChecker
checker_teste = record { base_url = codes "http://a"; cache = cache_teste }

abbrev enviar_teste : Enviar
enviar_teste url cabecalho = none

abbrev chave_teste : Texto → Texto → Texto
chave_teste usuario_id bearer = usuario_id

-- What a call that is joined would give: an error.
abbrev permissoes_junto : ℕ → Answer PermissoesEmCache (Unit {0})
permissoes_junto id = (permissoes_zero, some tt)

invalidar-consulta_example :
    (tem_permissao texto_discrete so_ascii enviar_teste chave_teste 3 4 permissoes_junto
      (invalidar texto_discrete checker_teste (codes "u"))
      background
      (codes "b")
      (codes "u")
      (codes "m")
      (codes "ler")).1
    ≡ (tem_permissao texto_discrete so_ascii enviar_teste chave_teste 3 4 permissoes_junto
        (record checker_teste { cache = new (pos 10000) })
        background
        (codes "b")
        (codes "u")
        (codes "m")
        (codes "ler")).1
unfolding deelp_pkg.Mapa.lookup
invalidar-consulta_example =
    invalidar-consulta texto_discrete so_ascii enviar_teste chave_teste 3 4 permissoes_junto
      checker_teste background (codes "b") (codes "u") (codes "m") (codes "ler") (λ a x h. h)
      ((codes "b", refl), tt) refl

abbrev sem_contratos : HttpCheckerContrato
sem_contratos = record {
  base_url = codes "http://a";
  cache = record { capacity = 5; items = []; inflight = [] };
}

-- A blocked contract.
abbrev bloqueado_teste : Texto → Texto → Option RespostaContrato
bloqueado_teste url bearer = some (record {
  status = 200;
  corpo = some (record { sucesso = true; contrato_ativo = false; contrato_situacao = [] });
})

abbrev contrato_junto : ℕ → Answer EntradaContrato (Unit {0})
contrato_junto id = (entrada_zero, some tt)

contrato_ativo-Fresca_example :
    Entries
      (Fresca 9)
      (contrato_ativo texto_discrete bloqueado_teste 3 4 contrato_junto sem_contratos
        (codes "b")
        (codes "e")).0.cache.items
contrato_ativo-Fresca_example =
    contrato_ativo-Fresca texto_discrete bloqueado_teste 9 3 4 contrato_junto sem_contratos
      (codes "b") (codes "e") (omega arith) tt

abbrev aws_teste : Aws ℕ
aws_teste = record {
  put_bucket_cors = λ s b os. (s + 1, true);
  put_object = λ s b o. (s, true);
  get_object = λ s b k. none;
  delete_object = λ s b k. (s, true);
  head_bucket = λ s b. true;
  presign = λ b k v. none;
  pages = λ s b p. [];
}

abbrev origens_teste : List Texto
origens_teste = codes " https://a " ∷ codes " " ∷ []

configurar_cors-Configura_example :
    Configura aws_teste
      (codes "b")
      5
      (aparadas origens_teste)
      (configurar_cors aws_teste (codes "b") 5 origens_teste)
configurar_cors-Configura_example = configurar_cors-Configura aws_teste (codes "b") 5 origens_teste

-- The last day of a year.
abbrev instante_teste : Instante
instante_teste = record { ano = 2026; mes = 12; dia = 31; hora = 7 }

intervalo-Entre_example :
    (p : Instante × Instante) × (intervalo (competencia_de instante_teste) ≡ some p)
    × ((u : Instante)
        → IsData u
        → Entre p u ↔ ((u.ano ≡ instante_teste.ano) × (u.mes ≡ instante_teste.mes)))
intervalo-Entre_example = intervalo-Entre instante_teste (record {
  ano_curto = omega arith;
  mes_um = omega arith;
  mes_doze = omega arith;
  dia_um = omega arith;
})

abbrev sem_conexoes : Biblioteca
sem_conexoes = record { proxima = 0; aberta = λ c. false }

abbrev recem_aberto : Estado ℕ
recem_aberto =
    conectar
      (record { biblioteca = sem_conexoes; gerenciador = record { conn = none; on_conn = [] } })

-- The first connection fails, a reconnection fails and the next one connects.
abbrev eventos_teste : List (EventoDeConexao ℕ)
eventos_teste = registro_de 7 ∷ queda 0 ∷ tentativa false ∷ tentativa true ∷ []

ao_longo-channel_example :
    ((ao_longo recem_aberto eventos_teste).biblioteca.aberta 1 ≡ true)
    ↔ (channel (ao_longo recem_aberto eventos_teste) ≡ some 1)
unfolding novo_gerenciador
ao_longo-channel_example =
    ao_longo-channel sem_conexoes recem_aberto eventos_teste 1 (λ n. refl) refl

-- That connection is open.
segunda_conexao : channel (ao_longo recem_aberto eventos_teste) ≡ some 1
unfolding ao_longo ao_evento conectar channel
segunda_conexao = refl
