-- ===== src/Umv/Compactacion.antt =====
-- `compactador` and `actualizarSegmento` of proyectoUMV/umv.c: the used segments are moved down, in
-- the order of the table, and one hole follows the last.
pub mod Contenidos
pub mod Copias
pub mod Medidas
pub mod Orden
pub mod Correccion
pub mod Validez
pub mod Transparencia
pub mod Desorden
mod Pruebas
use personal_copy_tp.Common.{
  ℕ, ◌+◌, ◌&&◌, Bool, List, [], ◌∷◌, Option, none, some, if◌then◌else◌, minus_one, int_add, int_sub,
  int_ltb, ltb, ptr_add, extend, Memory, read_bytes, write_bytes,
}
use personal_copy_tp.Commons.{ListOps}
use personal_copy_tp.Umv.Estado.{Segmento, Solape, Umv, tamano_usado_del_malloc}
use personal_copy_tp.Umv.Asignacion.{segmento_create}
use personal_copy_tp.Umv.Liberacion.{elimina_vacios}

abbrev pub se_solapan : ℕ → ℕ → ℕ → Bool
se_solapan destino origen n = ltb destino (origen + n) && ltb origen (destino + n)

-- Between ranges that meet, C does not say what `memcpy` does: `k` is what it then leaves of the memory.
pub memcpy : Solape → Memory → ℕ → ℕ → ℕ → Memory
memcpy k m destino origen n =
    if se_solapan destino origen n
    then k m destino origen n
    else write_bytes m destino (read_bytes m origen n)

-- The whole segment, then the new address.
pub actualizar_segmento : Solape → Memory → ℕ → Segmento → Memory × Segmento
actualizar_segmento k m destino s = (
  memcpy k m destino s.direccion_real (extend s.tamano_segmento),
  record s { direccion_real = destino },
)

-- A segment that lies above `destino` is moved there.
pub bajar : Solape → Memory → ℕ → Segmento → Memory × Segmento
unfolding actualizar_segmento
bajar k m destino s =
    if ltb destino s.direccion_real then actualizar_segmento k m destino s else (m, s)

abbrev pub fin : Segmento → ℕ
fin s = ptr_add s.direccion_real s.tamano_segmento

-- The loop: each node is moved to the end of the one before it. The nodes come back with `s` first.
pub mover : Solape → Memory → Segmento → List Segmento → Memory × List Segmento
mover k m s [] = (m, s ∷ [])
mover k m s (t ∷ xs) = let r = bajar k m (fin s) t in let q = mover k r.0 r.1 xs in (q.0, s ∷ q.1)

abbrev pub ultimo : Segmento → List Segmento → Segmento
ultimo s [] = s
ultimo s (t ∷ xs) = ultimo t xs

abbrev pub hueco_final : Umv → ℕ → ℕ → Segmento
hueco_final u donde tamano = record {
  direccion_real = donde;
  tamano_segmento = tamano;
  direccion_virtual = 0;
  id_segmento = int_add u.id_siguiente 1;
  process_id = minus_one;
}

module _ (lib : ListOps Segmento) where
  -- `segmento_create` of the hole, with the next identifier.
  abbrev pub con_hueco : Umv → List Segmento → ℕ → ℕ → Umv
  con_hueco u xs donde tamano = record u {
    lista_de_segmentos = segmento_create lib (hueco_final u donde tamano) xs;
    id_siguiente = int_add u.id_siguiente 1;
  }

  -- What follows the loop, with `s` the first node of `ys`.
  pub terminar : Umv → Segmento → Memory → List Segmento → Umv
  terminar u s m ys =
      let v : Umv = record u { memoria = m; lista_de_segmentos = ys } in
      let usada = tamano_usado_del_malloc ys in
      if int_ltb usada u.cantidad_bytes_malloc
      then con_hueco v ys (fin (ultimo s ys)) (int_sub u.cantidad_bytes_malloc usada)
      else v

  pub compactar : Solape → Umv → List Segmento → Umv
  unfolding bajar mover terminar
  compactar k u [] = con_hueco u [] u.inicio_malloc u.cantidad_bytes_malloc
  compactar k u (s ∷ xs) =
      let r = bajar k u.memoria u.inicio_malloc s in
      let q = mover k r.0 r.1 xs in terminar u r.1 q.0 q.1

  pub compactador : Umv → Umv
  unfolding compactar
  compactador u = compactar u.solapado u (elimina_vacios lib u.lista_de_segmentos)
