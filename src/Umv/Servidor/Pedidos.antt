-- ===== src/Umv/Servidor/Pedidos.antt =====
-- The requests for a segment in `hiloKernel` of proyectoUMV/umv.c: when the server compacts, and what
-- the compaction is worth.
use personal_copy_tp.Common.{
  ℕ, ◌+◌, ◌^◌, ◌<◌, ◌≤◌, ◌≡◌, ◌≢◌, refl, ap, sym, ◌∙◌, ◌==◌, [], some, length, arith, false, true,
  subst, inl, inr, All, Memory, ◌&&◌, int_leb,
}
use personal_copy_tp.Commons.{ListOps, Ordered}
use personal_copy_tp.Sockets.Paquetes.{paquete}
use personal_copy_tp.Umv.Estado.{Segmento, Umv, Configuracion}
use personal_copy_tp.Umv.Invariante.{usado, IsValid}
use personal_copy_tp.Umv.Asignacion.{crear_segmento, ordenar}
use personal_copy_tp.Umv.Asignacion.Bucles.{HayNoNulo, Posicion, vacio_para}
use personal_copy_tp.Umv.Asignacion.Validez.{Asignado}
use personal_copy_tp.Umv.Asignacion.PrimerAjuste.{crear_segmento-rechaza}
use personal_copy_tp.Umv.Asignacion.Exito.{crear_segmento-Asignado, crear_segmento-sin_hueco}
use personal_copy_tp.Umv.Liberacion.Vacios.{ocupados}
use personal_copy_tp.Umv.Compactacion.{compactador}
use personal_copy_tp.Umv.Compactacion.Orden.{direccion, Positivo}
use personal_copy_tp.Umv.Compactacion.Correccion.{Compactado, compactador-tabla}
use personal_copy_tp.Umv.Compactacion.Transparencia.{compactador-IsValid}
use personal_copy_tp.Umv.Acceso.Aislamiento.{memoria-IsValid}
use personal_copy_tp.Umv.Compactacion.Validez.{Compactado-IsValid, Compactado-usado}
use personal_copy_tp.Umv.Servidor.{
  listo, pedir_segmento, reintentar, con_int, error_no_creo_segmento, texto_no,
}

module _ (lib : ListOps Segmento) (basura : Segmento) (u : Umv) where
  -- A request for more bytes than are free, on a valid table sorted by address with no empty used
  -- segment, is refused, the pool is compacted, and the second try is refused too: the answer is
  -- always the error.
  pub pedir_segmento-no_alcanza :
      (basura' : Segmento) (pid tamano : ℕ)
      → IsValid u
      → Ordered direccion u.lista_de_segmentos
      → All Positivo (ocupados u.lista_de_segmentos)
      → 0 < tamano
      → u.cantidad_bytes_malloc + tamano < 2 ^ 31
      → u.cantidad_bytes_malloc < usado u.lista_de_segmentos + tamano
      → pedir_segmento lib basura basura' u pid tamano
        ≡ listo (compactador lib u) (some (paquete error_no_creo_segmento texto_no))
  unfolding pedir_segmento reintentar
  pedir_segmento-no_alcanza basura' pid tamano i o p positive small over =
      let v = compactador lib u in
      let (w, m, c, table) = compactador-tabla lib u i o p in
      let (i', used) = compactador-IsValid lib u i o p in
      let same : v.cantidad_bytes_malloc ≡ u.cantidad_bytes_malloc =
        ap (λ (x : Umv). x.cantidad_bytes_malloc) table
        ∙ ap (λ (g : Configuracion). g.cantidad_bytes_malloc) c.misma_configuracion in
      let nonzero : (tamano == 0) ≡ false = ground arith in
      let first = crear_segmento-rechaza lib basura u pid tamano i small over in
      let second =
        crear_segmento-rechaza lib basura' v pid tamano i' (omega arith) (omega (arith, used)) in
      rw (nonzero, first, pedir_segmento, second, reintentar)

  -- Under first fit, on a valid table that is not empty, a request for a size that is not 0 and together
  -- with the pool is an `int`, which the free bytes would satisfy but no single hole, is answered as if
  -- it were granted, with no segment made and no compaction, if the address in the uninitialised struct
  -- is not negative.
  pub pedir_segmento-fragmentado :
      (basura' : Segmento) (pid tamano : ℕ)
      → IsValid u
      → u.algoritmo_activo ≡ 1
      → 0 < tamano
      → u.cantidad_bytes_malloc + tamano < 2 ^ 31
      → usado u.lista_de_segmentos + tamano ≤ u.cantidad_bytes_malloc
      → u.lista_de_segmentos ≢ []
      → All (λ t. (vacio_para t && int_leb tamano t.tamano_segmento) ≡ false) u.lista_de_segmentos
      → basura.direccion_virtual < 2 ^ 31
      → pedir_segmento lib basura basura' u pid tamano
        ≡ listo (ordenar lib u) (some (con_int basura.direccion_virtual))
  unfolding pedir_segmento
  pedir_segmento-fragmentado basura' pid tamano i alg positive small fits some_node no_room
        garbage =
      let nonzero : (tamano == 0) ≡ false = ground arith in
      let nonneg : int_leb 0 basura.direccion_virtual ≡ true = ground arith in
      rw (
        nonzero,
        crear_segmento-sin_hueco lib basura u pid tamano i alg small fits some_node no_room,
        pedir_segmento,
        nonneg,
      )

  Compactado-alcanza :
      (v : Umv) (m : Memory) (c : Compactado u v) (pid tamano : ℕ)
      → IsValid u
      → u.algoritmo_activo ≡ 1
      → 0 < tamano
      → u.cantidad_bytes_malloc + tamano < 2 ^ 31
      → usado u.lista_de_segmentos + tamano ≤ u.cantidad_bytes_malloc
      → HayNoNulo u.aleatorios
      → (dir : ℕ) × (w : Umv) × (crear_segmento lib basura (record v { memoria = m }) pid tamano
          ≡ some (dir, w))
        × Asignado (record v { memoria = m }) w pid tamano dir
  Compactado-alcanza v m c pid tamano i alg positive small fits r =
      let x : Umv = record v { memoria = m } in
      let i' = memoria-IsValid v m (Compactado-IsValid u v i c) in
      let same : x.cantidad_bytes_malloc ≡ u.cantidad_bytes_malloc =
        ap (λ (g : Configuracion). g.cantidad_bytes_malloc) c.misma_configuracion in
      let draws : HayNoNulo x.aleatorios = subst HayNoNulo (sym c.mismos_aleatorios) r in
      elim c.final [
        | inl (e, full) ↦ absurd (omega arith)
        | inr (h, e, hole, at, size) ↦
            let place : Posicion x.lista_de_segmentos (length c.usados) h = record {
              antes = c.usados;
              despues = [];
              lista = e;
              indice = refl;
            } in
            crear_segmento-Asignado lib basura x pid tamano (length c.usados) i'
              (c.mismo_algoritmo ∙ alg) (omega arith) (omega (arith, Compactado-usado u v i c))
              draws place (ground arith) (omega arith)
      ]

  -- After a compaction of a valid table, sorted by address with no empty used segment, first fit grants
  -- each request for a size that is not 0, together with the pool is an `int`, and that the free bytes
  -- satisfy, if `rand` still gives a value other than 0.
  pub compactador-alcanza :
      (pid tamano : ℕ)
      → IsValid u
      → Ordered direccion u.lista_de_segmentos
      → All Positivo (ocupados u.lista_de_segmentos)
      → u.algoritmo_activo ≡ 1
      → 0 < tamano
      → u.cantidad_bytes_malloc + tamano < 2 ^ 31
      → usado u.lista_de_segmentos + tamano ≤ u.cantidad_bytes_malloc
      → HayNoNulo u.aleatorios
      → (dir : ℕ) × (w : Umv) × (crear_segmento lib basura (compactador lib u) pid tamano
          ≡ some (dir, w))
        × Asignado (compactador lib u) w pid tamano dir
  compactador-alcanza pid tamano i o p alg positive small fits r =
      let (v, m, c, table) = compactador-tabla lib u i o p in
      subst
        (λ (x : Umv).
          (dir : ℕ) × (w : Umv) × (crear_segmento lib basura x pid tamano ≡ some (dir, w))
          × Asignado x w pid tamano dir)
        (sym table) (Compactado-alcanza v m c pid tamano i alg positive small fits r)
