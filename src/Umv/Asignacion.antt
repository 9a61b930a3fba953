-- ===== src/Umv/Asignacion.antt =====
-- `firstFit`, `worstFit` and `crearSegmento` of proyectoUMV/umv.c.
pub mod Bucles
pub mod Validez
pub mod Crear
pub mod PrimerAjuste
pub mod Exito
pub mod PeorAjuste
pub mod Pruebas
use personal_copy_tp.Common.{
  ℕ, ◌+◌, ◌==◌, ◌&&◌, not, List, [], ◌∷◌, Option, none, some, if◌then◌else◌, int_add, int_sub,
  int_leb, int_ltb, ptr_add, minus_one,
}
use personal_copy_tp.Commons.{ListOps}
use personal_copy_tp.Umv.Estado.{
  Segmento, Umv, auxiliar_para_ordenar, tamano_usado_del_malloc, dir_vir_esta_en_umv,
}

-- `while (dirVir == 0) dirVir = rand();`. `none` where the values at hand end before the loop does.
unfoldable pub sortear_no_nulo : List ℕ → Option (ℕ × List ℕ)
sortear_no_nulo [] = none
sortear_no_nulo (r ∷ rs) = if r == 0 then sortear_no_nulo rs else some (r, rs)

-- `while (dirVir == 0 && banderaExiste == true)`, entered with both set: the loop goes on only
-- while the value drawn is 0 and is in the table.
unfoldable pub sortear_direccion : List Segmento → List ℕ → Option (ℕ × List ℕ)
sortear_direccion xs [] = none
sortear_direccion xs (r ∷ rs) =
    if r == 0 && dir_vir_esta_en_umv xs r then sortear_direccion xs rs else some (r, rs)

-- The loop of `firstFit`: the position and the node of the first hole that is large enough.
unfoldable pub primer_vacio : ℕ → ℕ → List Segmento → Option (ℕ × Segmento)
primer_vacio tamano i [] = none
primer_vacio tamano i (s ∷ xs) =
    if not (int_ltb 0 s.process_id) && int_leb tamano s.tamano_segmento
    then some (i, s)
    else primer_vacio tamano (i + 1) xs

-- The loop of `worstFit`: the first among the largest holes, of a size above `maximo`.
pub mayor_vacio : ℕ → Option (ℕ × Segmento) → ℕ → List Segmento → Option (ℕ × Segmento)
mayor_vacio maximo hallado i [] = hallado
mayor_vacio maximo hallado i (s ∷ xs) =
    let mejor = not (int_ltb 0 s.process_id) && int_ltb maximo s.tamano_segmento in
    mayor_vacio (if mejor then s.tamano_segmento else maximo)
      (if mejor then some (i, s) else hallado) (i + 1) xs

-- The segment that takes the first bytes of a hole, and what is left of the hole.
abbrev pub nuevo_en : Umv → Segmento → Segmento → ℕ → Segmento
nuevo_en u datos vacio dir = record datos {
  direccion_real = vacio.direccion_real;
  id_segmento = int_add u.id_siguiente 1;
  direccion_virtual = dir;
}

abbrev pub sobrante_de : Segmento → Segmento → Segmento
sobrante_de datos vacio = record vacio {
  direccion_real = ptr_add vacio.direccion_real datos.tamano_segmento;
  tamano_segmento = int_sub vacio.tamano_segmento datos.tamano_segmento;
}

-- The first two nodes of an empty table: the segment at the start of the pool, the rest a hole.
abbrev pub nuevo_primero : Umv → Segmento → ℕ → Segmento
nuevo_primero u datos dir = record datos {
  direccion_real = u.inicio_malloc;
  id_segmento = u.id_siguiente;
  direccion_virtual = dir;
}

abbrev pub vacio_primero : Umv → Segmento → Segmento
vacio_primero u datos = record {
  direccion_real = ptr_add u.inicio_malloc datos.tamano_segmento;
  tamano_segmento = int_sub u.cantidad_bytes_malloc datos.tamano_segmento;
  direccion_virtual = 0;
  id_segmento = int_add u.id_siguiente 1;
  process_id = minus_one;
}

abbrev pub con_tabla : Umv → List Segmento → List ℕ → Umv
con_tabla u tabla resto = record u {
  lista_de_segmentos = tabla;
  id_siguiente = int_add u.id_siguiente 1;
  aleatorios = resto;
}

-- `return segmentoACrear.direccionVirtual;`
abbrev pub con_direccion : Option (Segmento × Umv) → Option (ℕ × Umv)
con_direccion none = none
con_direccion (some (s, v)) = some (s.direccion_virtual, v)

module _ (lib : ListOps Segmento) where
  open lib use {list_add, list_remove, list_sort}

  abbrev pub segmento_create : Segmento → List Segmento → List Segmento
  segmento_create datos lista = list_add lista datos

  unfoldable pub primer_segmento : Umv → Segmento → Option (Segmento × Umv)
  primer_segmento u datos = elim (sortear_no_nulo u.aleatorios) [
    | none ↦ none
    | some (dir, resto) ↦ some (
      nuevo_primero u datos dir,
      con_tabla u
          (segmento_create (vacio_primero u datos)
            (segmento_create (nuevo_primero u datos dir) u.lista_de_segmentos))
          resto,
    )
  ]

  -- The hole at position `i` gives way to the new segment and to what is left of the hole, both at
  -- the end of the table.
  unfoldable pub ocupar_vacio : Umv → Segmento → ℕ → Segmento → Option (Segmento × Umv)
  ocupar_vacio u datos i vacio = elim (sortear_direccion u.lista_de_segmentos u.aleatorios) [
    | none ↦ none
    | some (dir, resto) ↦ some (
      nuevo_en u datos vacio dir,
      con_tabla u
          (segmento_create (sobrante_de datos vacio)
            (list_remove (segmento_create (nuevo_en u datos vacio dir) u.lista_de_segmentos) i))
          resto,
    )
  ]

  abbrev pub ordenar : Umv → Umv
  ordenar u = record u { lista_de_segmentos = list_sort auxiliar_para_ordenar u.lista_de_segmentos }

  -- The two tails that follow the sort, on the table as it then is.
  unfoldable pub first_fit_en : Umv → Segmento → Option (Segmento × Umv)
  unfolding ocupar_vacio primer_segmento
  first_fit_en u datos = elim u.lista_de_segmentos [
    | [] ↦
        if int_leb datos.tamano_segmento u.cantidad_bytes_malloc
        then primer_segmento u datos
        else some (datos, u)
    | s ∷ xs ↦ elim (primer_vacio datos.tamano_segmento 0 u.lista_de_segmentos) [
      | none ↦ some (datos, u)
      | some (i, vacio) ↦ ocupar_vacio u datos i vacio
    ]
  ]

  unfoldable pub first_fit : Umv → Segmento → Option (Segmento × Umv)
  unfolding first_fit_en
  first_fit u datos = first_fit_en (ordenar u) datos

  pub worst_fit_en : Umv → Segmento → Option (Segmento × Umv)
  unfolding ocupar_vacio primer_segmento
  worst_fit_en u datos = elim u.lista_de_segmentos [
    | [] ↦
        if int_leb datos.tamano_segmento u.cantidad_bytes_malloc
        then primer_segmento u datos
        else some (datos, u)
    | s ∷ xs ↦ elim (mayor_vacio 0 none 0 u.lista_de_segmentos) [
      | none ↦ some (datos, u)
      | some (i, vacio) ↦ ocupar_vacio u datos i vacio
    ]
  ]

  pub worst_fit : Umv → Segmento → Option (Segmento × Umv)
  unfolding worst_fit_en
  worst_fit u datos = worst_fit_en (ordenar u) datos

  -- `basura` is what the uninitialised `segmentoACrear` happens to hold: where no hole is found its
  -- virtual address is the answer.
  unfoldable pub crear_segmento : Segmento → Umv → ℕ → ℕ → Option (ℕ × Umv)
  unfolding first_fit worst_fit
  crear_segmento basura u pid tamano =
      let datos : Segmento = record basura { process_id = pid; tamano_segmento = tamano } in
      if int_leb (int_add (tamano_usado_del_malloc u.lista_de_segmentos) tamano)
        u.cantidad_bytes_malloc
      then con_direccion (if u.algoritmo_activo == 1 then first_fit u datos else worst_fit u datos)
      else some (minus_one, u)
