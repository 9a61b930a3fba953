-- ===== src/Umv/Compactacion/Correccion.antt =====
-- What `compactador` of proyectoUMV/umv.c does to a table that is sorted by address.
use personal_copy_tp.Common.{
  ℕ, ◌+◌, ◌^◌, ◌≤◌, ◌<◌, ◌≡◌, refl, ap, sym, ◌∙◌, ◌==◌, ◌⊎◌, List, [], ◌∷◌, ◌++◌, minus_one, false,
  Bool-cases, inl, inr, arith, subst, Memory, All, All-mono, int_ltb, ptr_add_nonneg,
}
use personal_copy_tp.Commons.{ListOps, Ordered}
use personal_copy_tp.Umv.Estado.{Segmento, Umv, esta_libre, tamano_usado_del_malloc}
use personal_copy_tp.Umv.Invariante.{EnPool, total, usado, IsValid, tamano_usado-suma, usado-le}
use personal_copy_tp.Umv.Liberacion.Vacios.{ocupados, elimina_vacios-ocupados}
use personal_copy_tp.Umv.Compactacion.{
  bajar, mover, ultimo, fin, hueco_final, con_hueco, terminar, compactar, compactador,
}
use personal_copy_tp.Umv.Compactacion.Contenidos.{
  memmove, contenido, contenidos, Encadenados, Encadenados-mono, Contiguos, contenidos_cong,
  bajar-Bajado, mover-Movido,
}
use personal_copy_tp.Umv.Compactacion.Copias.{SinSolape, compactar-SinSolape, compactar-tabla}
use personal_copy_tp.Umv.Compactacion.Medidas.{
  mismos-All, mismos-total, ultimo-Contiguos, ultimo-All, usado-total, total-ocupados,
  ocupados-usados,
}
use personal_copy_tp.Umv.Compactacion.Orden.{
  direccion, Positivo, ocupados-All, ocupados-Ordered, ocupados-Separados, Ordered-Encadenados,
}

-- The table `v` holds the used segments of `u`, with their bytes, from the start of the pool on and
-- with no gap, and behind them the rest of the pool as one hole, if there is a rest.
pub record Compactado (u v : Umv) : Type 0 where
  pub usados : List Segmento
  pub mismos : contenidos v.memoria usados ≡ contenidos u.memoria (ocupados u.lista_de_segmentos)
  pub sin_huecos : Contiguos u.inicio_malloc usados
  pub final :
      ((v.lista_de_segmentos ≡ usados) × (usado u.lista_de_segmentos ≡ u.cantidad_bytes_malloc))
      ⊎ ((h : Segmento) × (v.lista_de_segmentos ≡ usados ++ h ∷ [])
          × (h.process_id ≡ minus_one)
          × (h.direccion_real ≡ u.inicio_malloc + usado u.lista_de_segmentos)
          × (h.tamano_segmento + usado u.lista_de_segmentos ≡ u.cantidad_bytes_malloc))
  pub misma_configuracion : v.configuracion ≡ u.configuracion
  pub mismo_algoritmo : v.algoritmo_activo ≡ u.algoritmo_activo
  pub mismos_aleatorios : v.aleatorios ≡ u.aleatorios

-- The first segment goes to `lo`, the others follow.
record Acomodado (m : Memory) (lo : ℕ) (s : Segmento) (xs : List Segmento) : Type 0 where
  cola : List Segmento
  forma :
      (mover memmove (bajar memmove m lo s).0 (bajar memmove m lo s).1 xs).1
      ≡ (bajar memmove m lo s).1 ∷ cola
  mismos :
      contenidos
        (mover memmove (bajar memmove m lo s).0 (bajar memmove m lo s).1 xs).0
        (mover memmove (bajar memmove m lo s).0 (bajar memmove m lo s).1 xs).1
      ≡ contenidos m (s ∷ xs)
  contiguos : Contiguos lo (mover memmove (bajar memmove m lo s).0 (bajar memmove m lo s).1 xs).1

acomodar :
    (m : Memory) (hi lo : ℕ) (s : Segmento) (xs : List Segmento)
    → hi < 2 ^ 64
    → Encadenados hi lo (s ∷ xs)
    → Acomodado m lo s xs
acomodar m hi lo s xs h e =
    let b = bajar-Bajado m lo s e.0 e.1 in
    let r = bajar memmove m lo s in
    let chain : Encadenados hi (r.1.direccion_real + r.1.tamano_segmento) xs =
      Encadenados-mono hi (s.direccion_real + s.tamano_segmento) _ xs
        (omega (arith, b.lugar, b.tamano, e.1)) e.2 in
    let p = mover-Movido r.0 r.1 xs hi h (omega (arith, b.tamano, e.0)) chain in
    record {
      cola = p.cola;
      forma = p.forma;
      mismos =
          p.mismos
          ∙ ap (λ c. c ∷ contenidos r.0 xs) b.mismo
          ∙ ap (λ cs. contenido m s ∷ cs)
              (contenidos_cong r.0 m hi (s.direccion_real + s.tamano_segmento) xs b.encima e.2);
      contiguos = subst (λ n. Contiguos n (mover memmove r.0 r.1 xs).1) b.lugar p.contiguos;
    }

module _ (lib : ListOps Segmento) (u : Umv) where
  open lib use {list_add, list_add_lem}

  con_hueco-Compactado :
      (m : Memory) (ys : List Segmento) (donde tamano : ℕ)
      → contenidos m ys ≡ contenidos u.memoria (ocupados u.lista_de_segmentos)
      → Contiguos u.inicio_malloc ys
      → donde ≡ u.inicio_malloc + usado u.lista_de_segmentos
      → tamano + usado u.lista_de_segmentos ≡ u.cantidad_bytes_malloc
      → Compactado u
          (con_hueco lib (record u { memoria = m; lista_de_segmentos = ys }) ys donde tamano)
  con_hueco-Compactado m ys donde tamano same close at size = record {
    usados = ys;
    mismos = same;
    sin_huecos = close;
    final = inr (hueco_final u donde tamano, list_add_lem ys _, refl, at, size);
    misma_configuracion = refl;
    mismo_algoritmo = refl;
    mismos_aleatorios = refl;
  }

  terminar-Compactado :
      (s : Segmento) (m : Memory) (cola : List Segmento)
      → IsValid u
      → contenidos m (s ∷ cola) ≡ contenidos u.memoria (ocupados u.lista_de_segmentos)
      → Contiguos u.inicio_malloc (s ∷ cola)
      → Compactado u (terminar lib u s m (s ∷ cola))
  unfolding terminar
  terminar-Compactado s m cola i same close =
      let ys = s ∷ cola in
      let xs = u.lista_de_segmentos in
      let whole : total ys ≡ usado xs =
        mismos-total m u.memoria (ocupados xs) ys same ∙ total-ocupados xs in
      let owned : All (λ t. esta_libre t ≡ false) ys =
        mismos-All (λ c. (c.pid == minus_one) ≡ false) m u.memoria (ocupados xs) ys same
          (ocupados-usados xs) in
      let small : All (λ t. t.tamano_segmento < 2 ^ 31) ys =
        mismos-All (λ c. c.tamano < 2 ^ 31) m u.memoria (ocupados xs) ys same
          (ocupados-All (λ t. t.tamano_segmento < 2 ^ 31) xs
            (All-mono xs (λ t k. k.0) i.tabla.en_pool)) in
      let room = usado-le u i in
      let all_used : usado ys ≡ usado xs = usado-total ys owned ∙ whole in
      let used : tamano_usado_del_malloc ys ≡ usado xs =
        tamano_usado-suma ys (omega (arith, i.cantidad_int)) ∙ all_used in
      let end = ultimo-Contiguos s cola close.1 in
      let little = ultimo-All (λ t. t.tamano_segmento < 2 ^ 31) s cola small.0 small.1 in
      let top : fin (ultimo s cola) ≡ u.inicio_malloc + usado xs =
        ptr_add_nonneg _ _ little (omega (arith, i.direccionable, close.0))
        ∙ omega (arith, close.0) in
      elim (Bool-cases (int_ltb (usado xs) u.cantidad_bytes_malloc)) [
        | inl rest ↦
            rw (used, rest)
              (con_hueco-Compactado m ys _ _ same close top (ground (arith, i.cantidad_int)))
        | inr full ↦
            rw (used, full)
              (record {
                usados = ys;
                mismos = same;
                sin_huecos = close;
                final = inl (refl, ground (arith, i.cantidad_int));
                misma_configuracion = refl;
                mismo_algoritmo = refl;
                mismos_aleatorios = refl;
              })
      ]

  compactar-Compactado :
      (xs : List Segmento)
      → IsValid u
      → xs ≡ ocupados u.lista_de_segmentos
      → Encadenados (u.inicio_malloc + u.cantidad_bytes_malloc) u.inicio_malloc xs
      → Compactado u (compactar lib memmove u xs)
  unfolding compactar terminar
  compactar-Compactado [] i e chain =
      let nothing : usado u.lista_de_segmentos ≡ 0 =
        sym (total-ocupados u.lista_de_segmentos) ∙ ap total (sym e) in
      con_hueco-Compactado u.memoria [] u.inicio_malloc u.cantidad_bytes_malloc
        (ap (contenidos u.memoria) e) tt (omega arith) (omega arith)
  compactar-Compactado (s ∷ xs) i e chain =
      let r = bajar memmove u.memoria u.inicio_malloc s in
      let q = mover memmove r.0 r.1 xs in
      let a = acomodar u.memoria _ u.inicio_malloc s xs i.direccionable chain in
      let same =
        subst (λ ys. contenidos q.0 ys ≡ contenidos u.memoria (ocupados u.lista_de_segmentos))
          a.forma (a.mismos ∙ ap (contenidos u.memoria) e) in
      let close = subst (Contiguos u.inicio_malloc) a.forma a.contiguos in
      subst (λ ys. Compactado u (terminar lib u r.1 q.0 ys)) (sym a.forma)
        (terminar-Compactado r.1 q.0 a.cola i same close)

  -- The used segments of a valid sorted table, none of them empty, follow one another.
  ocupados-Encadenados :
      IsValid u
      → Ordered direccion u.lista_de_segmentos
      → All Positivo (ocupados u.lista_de_segmentos)
      → Encadenados
          (u.inicio_malloc + u.cantidad_bytes_malloc)
          u.inicio_malloc
          (ocupados u.lista_de_segmentos)
  ocupados-Encadenados i o p =
      let xs = u.lista_de_segmentos in
      Ordered-Encadenados u.inicio_malloc u.cantidad_bytes_malloc u.inicio_malloc (ocupados xs)
        (omega arith)
        (ocupados-All (λ t. u.inicio_malloc ≤ direccion t) xs
          (All-mono xs (λ t k. k.1) i.tabla.en_pool))
        (ocupados-All (EnPool u.inicio_malloc u.cantidad_bytes_malloc) xs i.tabla.en_pool)
        (ocupados-Separados xs i.tabla.separados) p (ocupados-Ordered xs o)

  -- On a valid table that is sorted by address, with no empty used segment, where each used segment
  -- either stays or goes down by its size at least, `compactador` keeps the identity, owner, virtual
  -- address and bytes of every used segment, closes all gaps, and puts the free bytes behind the last
  -- segment as one hole.
  pub compactador-Compactado :
      IsValid u
      → Ordered direccion u.lista_de_segmentos
      → All Positivo (ocupados u.lista_de_segmentos)
      → SinSolape u.inicio_malloc (ocupados u.lista_de_segmentos)
      → Compactado u (compactador lib u)
  unfolding compactador
  compactador-Compactado i o p a =
      let xs = ocupados u.lista_de_segmentos in
      let chain = ocupados-Encadenados i o p in
      rw (elimina_vacios-ocupados lib u.lista_de_segmentos) (
        subst (Compactado u)
          (sym (compactar-SinSolape lib u.solapado u xs _ i.direccionable chain a))
          (compactar-Compactado xs i refl chain))

  -- Whatever `memcpy` does to ranges that meet, only the memory depends on it.
  pub compactador-tabla :
      IsValid u
      → Ordered direccion u.lista_de_segmentos
      → All Positivo (ocupados u.lista_de_segmentos)
      → (v : Umv) × (m : Memory) × Compactado u v × (compactador lib u ≡ record v { memoria = m })
  unfolding compactador
  compactador-tabla i o p =
      let xs = ocupados u.lista_de_segmentos in
      let (m, same) = compactar-tabla lib u.solapado memmove u xs in
      (
        compactar lib memmove u xs,
        m,
        compactar-Compactado xs i refl (ocupados-Encadenados i o p),
        rw (elimina_vacios-ocupados lib u.lista_de_segmentos) same,
      )
