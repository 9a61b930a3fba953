-- ===== src/Umv/Abstracto/Acciones.antt =====
-- The memory server of proyectoUMV/umv.c as a machine that writes, ends processes, compacts and makes segments,
-- in any order, and the machine of texts that it implements.
use personal_copy_tp.Common.{
  ℕ, ◌+◌, ◌^◌, ◌<◌, ◌≤◌, ◌==◌, ◌≡◌, ◌≢◌, refl, ap, subst, sym, ◌∙◌, List, [], ◌∷◌, length, All,
  minus_one, true, false, some, none, arith,
}
use personal_copy_tp.Commons.{ListOps, Ordered}
use personal_copy_tp.Umv.Estado.{Segmento, Umv}
use personal_copy_tp.Umv.Invariante.{IsValid, usado}
use personal_copy_tp.Umv.Asignacion.{crear_segmento}
use personal_copy_tp.Umv.Asignacion.Validez.{Asignado}
use personal_copy_tp.Umv.Asignacion.Bucles.{vacio_para, HayNoNulo, Posicion}
use personal_copy_tp.Umv.Asignacion.Exito.{crear_segmento-Asignado}
use personal_copy_tp.Umv.Asignacion.PrimerAjuste.{crear_segmento-IsValid}
use personal_copy_tp.Umv.Abstracto.Altas.{Asignado-vista}
use personal_copy_tp.Umv.Abstracto.Busqueda.{Unicos}
use personal_copy_tp.Umv.Acceso.{hecho, buscar_segmento, pegar_bytes}
use personal_copy_tp.Umv.Acceso.Aislamiento.{pegar_bytes-IsValid}
use personal_copy_tp.Umv.Liberacion.{destruir_segmentos}
use personal_copy_tp.Umv.Liberacion.Vacios.{ocupados}
use personal_copy_tp.Umv.Liberacion.Destruccion.{destruir_segmentos-IsValid}
use personal_copy_tp.Umv.Compactacion.{compactador}
use personal_copy_tp.Umv.Compactacion.Copias.{SinSolape}
use personal_copy_tp.Umv.Compactacion.Orden.{direccion, Positivo}
use personal_copy_tp.Umv.Compactacion.Transparencia.{compactador-IsValid}
use personal_copy_tp.Umv.Abstracto.{Vista, vista, pegar_texto, cambiar, quitar}
use personal_copy_tp.Umv.Abstracto.Refinamiento.{
  pegar_bytes-vista, destruir_segmentos-vista, compactador-vista,
}

-- What is asked of the memory server: a write of a process at an offset of an address, the end of a process,
-- a compaction, or a new segment of a process, with its address and its size.
pub data Accion : Type 0 where
  escribe : (pid base offset : ℕ) → List ℕ → Accion
  destruye : (pid : ℕ) → Accion
  compacta : Accion
  crea : (pid dir tamano : ℕ) → Accion

-- A new segment, at an address that its process does not have, cut by first fit out of a hole that is large
-- enough.
pub record Creada (lib : ListOps Segmento) (pid dir tamano : ℕ) (u v : Umv) : Type 0 where
  pub basura : Segmento
  pub hueco : Segmento
  pub lugar : ℕ
  pub primer_ajuste : u.algoritmo_activo ≡ 1
  pub entero : u.cantidad_bytes_malloc + tamano < 2 ^ 31
  pub alcanza : usado u.lista_de_segmentos + tamano ≤ u.cantidad_bytes_malloc
  pub no_nulo : HayNoNulo u.aleatorios
  pub posicion : Posicion u.lista_de_segmentos lugar hueco
  pub vacio : vacio_para hueco ≡ true
  pub cabe : tamano ≤ hueco.tamano_segmento
  pub positivo : 0 < pid
  pub corto : pid < 2 ^ 31
  pub unicos : Unicos u.lista_de_segmentos
  pub nueva : buscar_segmento u.lista_de_segmentos dir pid ≡ none
  pub hecha : crear_segmento lib basura u pid tamano ≡ some (dir, v)

-- What the server does of it: a write that is granted; the end of a process; the compaction of a table that is
-- sorted by address, has no empty used segment, and moves none over its old place; a segment as above.
abbrev pub Hace : ListOps Segmento → Accion → Umv → Umv → Type 0
Hace lib (escribe pid base offset bytes) u v =
    (pid ≢ minus_one)
    × (offset + length bytes < 2 ^ 31)
    × (pegar_bytes u bytes base offset (length bytes) pid ≡ hecho v)
Hace lib (destruye pid) u v = (pid ≢ minus_one) × (destruir_segmentos u pid ≡ v)
Hace lib compacta u v =
    Ordered direccion u.lista_de_segmentos
    × All Positivo (ocupados u.lista_de_segmentos)
    × SinSolape u.inicio_malloc (ocupados u.lista_de_segmentos)
    × (compactador lib u ≡ v)
Hace lib (crea pid dir tamano) u v = Creada lib pid dir tamano u v

-- What it is to do to the texts: the bytes of one text are replaced, a process loses its texts, nothing
-- happens, or a process has one text more, of the size asked for and with bytes that are left open.
abbrev pub Cambia : Accion → Vista → Vista → Type 0
Cambia (escribe pid base offset bytes) w w' =
    (nuevo : List ℕ) × (pegar_texto (w pid base) bytes offset ≡ hecho nuevo)
    × (w' ≡ cambiar w pid base nuevo)
Cambia (destruye pid) w w' = w' ≡ quitar w pid
Cambia compacta w w' = w' ≡ w
Cambia (crea pid dir tamano) w w' =
    (texto : List ℕ) × (length texto ≡ tamano) × (w pid dir ≡ none) × (w' ≡ cambiar w pid dir texto)

-- One action after another.
unfoldable pub Camino : {A : Type 0} → (Accion → A → A → Type 0) → List Accion → A → A → Type 0
Camino R [] a c = a ≡ c
Camino {A} R (x ∷ xs) a c = (b : A) × R x a b × Camino R xs b c

module _ (lib : ListOps Segmento) where
  Hace-crea :
      {u v : Umv} (pid dir tamano : ℕ)
      → IsValid u
      → Creada lib pid dir tamano u v
      → IsValid v × Cambia (crea pid dir tamano) (vista u) (vista v)
  Hace-crea {u} {v} pid dir tamano i k =
      let (dir', v', e', a') =
        crear_segmento-Asignado lib k.basura u pid tamano k.lugar i k.primer_ajuste k.entero
          k.alcanza k.no_nulo k.posicion k.vacio k.cabe in
      let together : some (dir', v') ≡ some (dir, v) = sym e' ∙ k.hecha in
      let one : dir' ≡ dir = cc in
      let two : v' ≡ v = cc in
      let a : Asignado u v pid tamano dir =
        subst (λ w. Asignado u w pid tamano dir) two
          (subst (λ d. Asignado u v' pid tamano d) one a') in
      let n : pid ≢ minus_one = let small = k.corto in ground arith in
      let (texto, long, grown) = Asignado-vista u v pid tamano dir i a n k.unicos k.nueva in
      let nobody : vista u pid dir ≡ none =
        let someone : (pid == minus_one) ≡ false = ground arith in rw (someone, k.nueva) refl in
      (
        crear_segmento-IsValid lib k.basura u pid tamano i k.primer_ajuste k.entero k.positivo
            k.corto k.hecha,
        (texto, long, nobody, grown),
      )

  Hace-Cambia :
      (x : Accion) {u v : Umv}
      → IsValid u
      → Hace lib x u v
      → IsValid v × Cambia x (vista u) (vista v)
  Hace-Cambia (escribe pid base offset bytes) {u} {v} i (n, small, e) = (
    pegar_bytes-IsValid u bytes base offset (length bytes) pid i e,
    pegar_bytes-vista u pid base offset bytes i n small e,
  )
  Hace-Cambia (destruye pid) {u} {v} i (n, e) = (
    subst IsValid e (destruir_segmentos-IsValid u pid i),
    ap vista (sym e) ∙ destruir_segmentos-vista u pid i n,
  )
  Hace-Cambia compacta {u} {v} i (o, p, a, e) = (
    subst IsValid e (compactador-IsValid lib u i o p).0,
    ap vista (sym e) ∙ compactador-vista lib u i o p a,
  )
  Hace-Cambia (crea pid dir tamano) i k = Hace-crea pid dir tamano i k

  -- From a valid table on, each run of granted writes, ends of processes, compactions and new segments, each
  -- under the conditions of `Hace`, does to the texts of the processes what the same actions, in the same
  -- order and with the same values, are to do to texts.
  pub Camino-Cambia :
      (xs : List Accion) (u v : Umv)
      → IsValid u
      → Camino (Hace lib) xs u v
      → Camino Cambia xs (vista u) (vista v)
  unfolding Camino
  Camino-Cambia [] u v i e = ap vista e
  Camino-Cambia (x ∷ xs) u v i (w, first, rest) =
      let (j, one) = Hace-Cambia x i first in (vista w, one, Camino-Cambia xs w v j rest)
