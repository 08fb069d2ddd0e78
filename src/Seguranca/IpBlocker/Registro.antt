-- ===== src/Seguranca/IpBlocker/Registro.antt =====
-- What each operation of the blocker keeps of the agreement with the record of every address.
use deelp_pkg.Seguranca.IpBlocker.{IpBlocker, contagem, passou, registrar_falha, esta_bloqueado}
use deelp_pkg.Seguranca.IpBlocker.Laws.{bloqueado_por}
use deelp_pkg.Texto.{Texto}
use deelp_pkg.Mapa.{Mapa, lookup, put, remove, UniqueKeys, retain}
use deelp_pkg.Mapa.Laws.{
  lookup-put_ne, lookup-put_self, lookup-remove_self, lookup-remove_ne, put-UniqueKeys,
  retain-UniqueKeys, remove-UniqueKeys, lookup-retain-none, lookup-retain,
}
use deelp_pkg.Prelude.{
  ℕ, true, none, some, pos, inl, inr, Option, ℤ, if◌then◌else◌, ◌≡◌, ◌≤◌, arith, leb_ℤ, ◌+◌,
  Bool-cases, false, refl, sym, ◌≢◌, ◌∙◌, not, Option-cases, Bool,
}
use mathlib.Core.Logic.{ite}
use mathlib.Core.Path.{subst}

-- What an address did: its failures since its last success or block, and the instant of its last block.
pub record RegistroIp : Type 0 where
  pub falhas : ℕ
  pub bloqueio : Option ℕ

module _ (dec : Discrete Texto) (max : ℤ) (duracao : ℕ) where
  abbrev pub com_mapas : Mapa Texto ℕ → Mapa Texto ℕ → IpBlocker
  com_mapas bl fl = record {
    max_tentativas = max;
    duracao_bloqueio = duracao;
    bloqueios = bl;
    falhas = fl;
  }

  abbrev pub falhou : ℕ → RegistroIp → RegistroIp
  falhou t r =
      if leb_ℤ max (pos (r.falhas + 1))
      then record { falhas = 0; bloqueio = some t }
      else record r { falhas = r.falhas + 1 }

  abbrev pub zerado : RegistroIp → RegistroIp
  zerado r = record r { falhas = 0 }

  -- From an instant on, an entry gives the answers of the last block.
  abbrev pub Segue : ℕ → Option ℕ → Option ℕ → Type 0
  Segue now o r = (n : ℕ) → now ≤ n → bloqueado_por n duracao o ≡ bloqueado_por n duracao r

  abbrev pub Fiel : ℕ → Option ℕ → Option ℕ → RegistroIp → Type 0
  Fiel now bt n r = (contagem n ≡ r.falhas) × Segue now bt r.bloqueio

  abbrev pub Inv : ℕ → Mapa Texto ℕ → Mapa Texto ℕ → (Texto → RegistroIp) → Type 0
  Inv now bl fl ref =
      UniqueKeys dec bl × ((q : Texto) → Fiel now (lookup dec q bl) (lookup dec q fl) (ref q))

  pub expirado-Segue :
      (now bt : ℕ) (r : Option ℕ)
      → passou now duracao bt ≡ true
      → Segue now (some bt) r
      → Segue now none r
  unfolding bloqueado_por
  expirado-Segue now bt r h s n l =
      let e : bloqueado_por n duracao (some bt) ≡ false = ground arith in sym e ∙ s n l

  -- A change of one address, which is faithful there and leaves the others alone.
  pub mudar-Inv :
      (t : ℕ) (bl fl bl' fl' : Mapa Texto ℕ) (ref : Texto → RegistroIp) (ip : Texto)
      (f : RegistroIp → RegistroIp)
      → Inv t bl fl ref
      → UniqueKeys dec bl'
      → ((q : Texto)
          → q ≢ ip
          → (lookup dec q bl' ≡ lookup dec q bl) × (lookup dec q fl' ≡ lookup dec q fl))
      → Fiel t (lookup dec ip bl') (lookup dec ip fl') (f (ref ip))
      → Inv t bl' fl' (λ q. ite (dec ip q) (f (ref q)) (ref q))
  mudar-Inv t bl fl bl' fl' ref ip f (u, i) u' o s = (
    u',
    λ q.
        elim (dec ip q)
          as (λ d. Fiel t (lookup dec q bl') (lookup dec q fl') (ite d (f (ref q)) (ref q))) [
            | yes e ↦ subst (λ k. Fiel t (lookup dec k bl') (lookup dec k fl') (f (ref k))) e s
            | no n ↦ let (a, b) = o q (λ e. n (sym e)) in rw (a, b) (i q)
          ],
  )

  pub falha-Inv :
      (t : ℕ) (bl fl : Mapa Texto ℕ) (ref : Texto → RegistroIp) (ip : Texto)
      → Inv t bl fl ref
      → (bl' : Mapa Texto ℕ) × (fl' : Mapa Texto ℕ) × (registrar_falha dec t (com_mapas bl fl) ip
          ≡ com_mapas bl' fl')
        × Inv t bl' fl' (λ q. ite (dec ip q) (falhou t (ref q)) (ref q))
  unfolding registrar_falha
  falha-Inv t bl fl ref ip (u, i) =
      let n = contagem (lookup dec ip fl) + 1 in
      let c : (ref ip).falhas ≡ contagem (lookup dec ip fl) = sym (i ip).0 in
      elim (Bool-cases (leb_ℤ max (pos n))) [
        | inl e ↦ (
          put dec ip t bl,
          remove dec ip (put dec ip n fl),
          rw e refl,
          mudar-Inv t bl fl _ _ ref ip (falhou t) (u, i) (put-UniqueKeys dec ip t bl u)
              (λ q d. (
                lookup-put_ne dec ip q t bl d,
                lookup-remove_ne dec ip q _ d ∙ lookup-put_ne dec ip q n fl d,
              ))
              (rw (c, e, lookup-put_self dec ip t bl, lookup-remove_self dec ip (put dec ip n fl))
                (refl, λ m l. refl)),
        )
        | inr e ↦ (
          bl,
          put dec ip n fl,
          rw e refl,
          mudar-Inv t bl fl _ _ ref ip (falhou t) (u, i) u
              (λ q d. (refl, lookup-put_ne dec ip q n fl d))
              (rw (c, e, lookup-put_self dec ip n fl) (refl, (i ip).1)),
        )
      ]

  pub sucesso-Inv :
      (t : ℕ) (bl fl : Mapa Texto ℕ) (ref : Texto → RegistroIp) (ip : Texto)
      → Inv t bl fl ref
      → Inv t bl (remove dec ip fl) (λ q. ite (dec ip q) (zerado (ref q)) (ref q))
  sucesso-Inv t bl fl ref ip (u, i) =
      mudar-Inv t bl fl bl _ ref ip zerado (u, i) u (λ q d. (refl, lookup-remove_ne dec ip q fl d))
        (rw (lookup-remove_self dec ip fl) (refl, (i ip).1))

  -- An entry that has expired may go.
  pub some-Fiel :
      (t b : ℕ) (o n : Option ℕ) (r : RegistroIp)
      → passou t duracao b ≡ true
      → o ≡ some b
      → Fiel t o n r
      → Fiel t none n r
  some-Fiel t b o n r h e (c, s) =
      (c, expirado-Segue t b r.bloqueio h (subst (λ k. Segue t k r.bloqueio) e s))

  pub consulta-Inv :
      (t : ℕ) (bl fl : Mapa Texto ℕ) (ref : Texto → RegistroIp) (ip : Texto)
      → Inv t bl fl ref
      → (bl' : Mapa Texto ℕ) × ((esta_bloqueado dec t (com_mapas bl fl) ip).0 ≡ com_mapas bl' fl)
        × Inv t bl' fl ref
  unfolding esta_bloqueado
  consulta-Inv t bl fl ref ip (u, i) = elim (Option-cases (lookup dec ip bl)) [
    | inl e ↦ (bl, rw (e, esta_bloqueado) refl, (u, i))
    | inr (b, e) ↦ elim (Bool-cases (passou t duracao b)) [
      | inl h ↦ (
        remove dec ip bl,
        rw (e, esta_bloqueado) (rw h refl),
        (
          remove-UniqueKeys dec ip bl u,
          λ q. elim (dec ip q) [
            | yes k ↦
                subst (λ a. Fiel t (lookup dec a (remove dec ip bl)) (lookup dec a fl) (ref a)) k
                  (rw (lookup-remove_self dec ip bl)
                    (some-Fiel t b (lookup dec ip bl) (lookup dec ip fl) (ref ip) h e (i ip)))
            | no n ↦ rw (lookup-remove_ne dec ip q bl (λ k. n (sym k))) (i q)
          ],
        ),
      )
      | inr h ↦ (bl, rw (e, esta_bloqueado) (rw h refl), (u, i))
    ]
  ]

  pub limpeza-Inv :
      (t : ℕ) (bl fl : Mapa Texto ℕ) (ref : Texto → RegistroIp)
      → Inv t bl fl ref
      → Inv t (retain (λ ip b. not (passou t duracao b)) bl) fl ref
  limpeza-Inv t bl fl ref (u, i) =
      let p : Texto → ℕ → Bool = λ ip b. not (passou t duracao b) in
      (
        retain-UniqueKeys dec p bl u,
        λ q. elim (Option-cases (lookup dec q bl)) [
          | inl e ↦
              rw (lookup-retain-none dec p q bl e)
                (subst (λ o. Fiel t o (lookup dec q fl) (ref q)) e (i q))
          | inr (b, e) ↦
              rw (lookup-retain dec p q b bl u e) (elim (Bool-cases (passou t duracao b)) [
                | inl h ↦ rw h (some-Fiel t b (lookup dec q bl) (lookup dec q fl) (ref q) h e (i q))
                | inr h ↦ rw h (subst (λ o. Fiel t o (lookup dec q fl) (ref q)) e (i q))
              ])
        ],
      )

  pub Inv-later :
      (t now : ℕ) (bl fl : Mapa Texto ℕ) (ref : Texto → RegistroIp)
      → t ≤ now
      → Inv t bl fl ref
      → Inv now bl fl ref
  Inv-later t now bl fl ref l (u, i) = (u, λ q. ((i q).0, λ n k. (i q).1 n (omega arith)))
