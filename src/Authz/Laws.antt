-- ===== src/Authz/Laws.antt =====
-- What the permission checker keeps, for whom, and who never meets it.
use deelp_pkg.TtlCache.{Item, Cache, delete_func}
use deelp_pkg.TtlCache.Entries.{Entries, Storable, load_alone-Entries}
use deelp_pkg.Texto.Laws.{eq→eq_texto}
use deelp_pkg.TtlCache.Entries.{load_alone-miss}
use deelp_pkg.TtlCache.{new}
use deelp_pkg.TtlCache.Load.{Answer}
use deelp_pkg.Mapa.{Mapa, lookup, retain}
use deelp_pkg.Auth.Claims.{Contexto}
use deelp_pkg.Auth.Contexto.{eh_sessao_suporte}
use deelp_pkg.Authz.{
  Permissoes, PermissoesEmCache, HttpChecker, Enviar, carregar, consultar, permissoes_zero,
  invalidar, tem_permissao,
}
use deelp_pkg.Texto.{Texto, Unicode, vazio, eq_texto}
use deelp_pkg.Prelude.{
  [], ◌∷◌, none, some, true, inl, inr, refl, ℕ, ◌≡◌, Option, not, Bool-cases, Bool, arith, pos, sym,
  ◌∙◌,
}
use mathlib.Core.Logic.{ite}

module _ (dec : Discrete Texto) (u : Unicode) (enviar : Enviar)
    (chave : Texto → Texto → Texto) where
  -- A support session neither writes the cache nor reads it: the checker is as it was, and the answer is the
  -- same with any other cache.
  tem_permissao-suporte :
      (now depois : ℕ) (junto : ℕ → Answer PermissoesEmCache (Unit {0})) (c : HttpChecker)
      (outra : Cache Texto PermissoesEmCache) (ctx : Contexto)
      (bearer usuario_id modulo acao : Texto)
      → eh_sessao_suporte ctx ≡ true
      → ((tem_permissao dec u enviar chave now depois junto c ctx bearer usuario_id modulo acao).0
          ≡ c)
        × ((tem_permissao dec u enviar chave now depois junto
              (record c { cache = outra })
              ctx
              bearer
              usuario_id
              modulo
              acao).1
            ≡ (tem_permissao dec u enviar chave now depois junto c ctx bearer usuario_id modulo
                acao).1)
  unfolding tem_permissao consultar
  tem_permissao-suporte now depois junto c outra ctx bearer usuario_id modulo acao h =
      elim (Bool-cases (vazio c.base_url)) [
        | inl e ↦ rw e (refl, refl)
        | inr e ↦ rw (e, h) (refl, refl)
      ]

  -- Every entry is under the key of the user that it names.
  abbrev pub DoUsuario : Texto → Item PermissoesEmCache → Type 0
  DoUsuario k it = (b : Texto) × (k ≡ chave it.value.usuario_id b)

  carregar-Storable :
      (later : ℕ) (usuario_id bearer : Texto) (o : Option (Permissoes × Bool))
      → Storable DoUsuario dec later (chave usuario_id bearer) (carregar usuario_id o)
  carregar-Storable later usuario_id bearer none = tt
  carregar-Storable later usuario_id bearer (some (p, sucesso)) = elim (Bool-cases sucesso) [
    | inl e ↦ rw e (λ h. (bearer, refl))
    | inr e ↦ rw e (λ h. absurd (ground arith))
  ]

  -- A check keeps it so that every entry is under a key of the user that it names.
  tem_permissao-DoUsuario :
      (now depois : ℕ) (junto : ℕ → Answer PermissoesEmCache (Unit {0})) (c : HttpChecker)
      (ctx : Contexto) (bearer usuario_id modulo acao : Texto)
      → Entries DoUsuario c.cache.items
      → Entries DoUsuario
          (tem_permissao dec u enviar chave now depois junto c ctx bearer usuario_id modulo
            acao).0.cache.items
  unfolding tem_permissao
  tem_permissao-DoUsuario now depois junto c ctx bearer usuario_id modulo acao h =
      elim (Bool-cases (vazio c.base_url)) [
        | inl e ↦ rw e h
        | inr e ↦ elim (Bool-cases (eh_sessao_suporte ctx)) [
          | inl s ↦ rw (e, s) h
          | inr s ↦
              rw (e, s)
                (load_alone-Entries DoUsuario dec now depois junto c.cache (chave usuario_id bearer)
                  permissoes_zero tt (carregar usuario_id (consultar u enviar c bearer usuario_id))
                  (carregar-Storable depois usuario_id bearer
                    (consultar u enviar c bearer usuario_id))
                  h)
        ]
      ]

  sem_usuario :
      (usuario_id bearer : Texto) (m : Mapa Texto (Item PermissoesEmCache))
      → ((a x : Texto) → chave a x ≡ chave usuario_id bearer → a ≡ usuario_id)
      → Entries DoUsuario m
      → lookup dec
          (chave usuario_id bearer)
          (retain (λ k it. not (eq_texto it.value.usuario_id usuario_id)) m)
        ≡ none
  unfolding lookup retain
  sem_usuario usuario_id bearer [] inj h = refl
  sem_usuario usuario_id bearer ((k, it) ∷ m) inj ((b, e), hs) =
      elim (Bool-cases (eq_texto it.value.usuario_id usuario_id)) [
        | inl q ↦ rw q (sem_usuario usuario_id bearer m inj hs)
        | inr q ↦
            rw (q, lookup)
              (elim (dec k (chave usuario_id bearer))
                as (λ d.
                  ite d (some it) (
                    lookup dec (chave usuario_id bearer)
                      (retain (λ k it. not (eq_texto it.value.usuario_id usuario_id)) m))
                  ≡ none) [
                    | yes f ↦ absurd (
                        ground (
                          arith,
                          eq→eq_texto it.value.usuario_id usuario_id
                              (inj it.value.usuario_id b (sym e ∙ f)),
                        ))
                    | no n ↦ sem_usuario usuario_id bearer m inj hs
                  ])
      ]

  -- After a user's permissions are invalidated, the next check of the user, with whatever bearer, answers as
  -- with an empty cache: it asks the service again. The conditions: every entry is under a key of the user that
  -- it names, no other user has the user's key, and no load of that key is in flight, which the check would join.
  pub invalidar-consulta :
      (now depois : ℕ) (junto : ℕ → Answer PermissoesEmCache (Unit {0})) (c : HttpChecker)
      (ctx : Contexto) (bearer usuario_id modulo acao : Texto)
      → ((a x : Texto) → chave a x ≡ chave usuario_id bearer → a ≡ usuario_id)
      → Entries DoUsuario c.cache.items
      → lookup dec (chave usuario_id bearer) c.cache.inflight ≡ none
      → (tem_permissao dec u enviar chave now depois junto
          (invalidar dec c usuario_id)
          ctx
          bearer
          usuario_id
          modulo
          acao).1
        ≡ (tem_permissao dec u enviar chave now depois junto
            (record c { cache = new (pos 10000) })
            ctx
            bearer
            usuario_id
            modulo
            acao).1
  unfolding tem_permissao invalidar consultar new delete_func lookup
  invalidar-consulta now depois junto c ctx bearer usuario_id modulo acao inj h livre =
      elim (Bool-cases (vazio c.base_url)) [
        | inl e ↦ rw e refl
        | inr e ↦ elim (Bool-cases (eh_sessao_suporte ctx)) [
          | inl s ↦ rw (e, s) refl
          | inr s ↦
              let o = carregar usuario_id (consultar u enviar c bearer usuario_id) in
              rw
                (
                  e,
                  s,
                  load_alone-miss DoUsuario dec now depois junto (invalidar dec c usuario_id).cache
                      (chave usuario_id bearer) permissoes_zero tt o
                      (sem_usuario usuario_id bearer c.cache.items inj h) livre,
                  load_alone-miss DoUsuario dec now depois junto (new (pos 10000))
                      (chave usuario_id bearer) permissoes_zero tt o refl refl,
                )
                refl
        ]
      ]
