-- ===== src/Umv/Asignacion/Pruebas.antt =====
-- The theorems on `crearSegmento` at small tables.
use personal_copy_tp.Common.{ℕ, ◌≡◌, refl, [], ◌∷◌, arith, inl, some, minus_one}
use personal_copy_tp.Commons.Reference.{sort_by, insert_by, add_last, remove_at}
use personal_copy_tp.Umv.Estado.{
  Umv, tamano_usado_del_malloc, tamano_usado_desde, dir_vir_esta_en_umv, auxiliar_para_ordenar,
}
use personal_copy_tp.Umv.Invariante.{IsValid}
use personal_copy_tp.Umv.Ejemplos.{
  lib, seg, basura, dos, dos-IsValid, fragmentos, fragmentos-IsValid,
}
use personal_copy_tp.Umv.Asignacion.{
  crear_segmento, first_fit, first_fit_en, primer_vacio, sortear_direccion, ocupar_vacio,
}
use personal_copy_tp.Umv.Asignacion.Bucles.{Posicion}
use personal_copy_tp.Umv.Asignacion.Validez.{Asignado}
use personal_copy_tp.Umv.Asignacion.Crear.{Resultado}
use personal_copy_tp.Umv.Asignacion.PrimerAjuste.{crear_segmento-Resultado, crear_segmento-IsValid}
use personal_copy_tp.Umv.Asignacion.Exito.{crear_segmento-Asignado}
use personal_copy_tp.Umv.Asignacion.PeorAjuste.{
  EsMayor, crear_segmento-peor_Asignado, crear_segmento-peor_invalido,
}

abbrev pub tres : Umv
tres = record dos {
  lista_de_segmentos =
      seg 0 1 500 40 1000
      ∷ seg 1 2 600 30 1040
      ∷ seg 4 3 77 20 1070
      ∷ seg 2 minus_one 0 10 1090
      ∷ [];
  id_siguiente = 4;
  aleatorios = [];
}

pub tres_lem : crear_segmento lib basura dos 3 20 ≡ some (77, tres)
unfolding crear_segmento first_fit first_fit_en primer_vacio sortear_direccion ocupar_vacio sort_by
    insert_by add_last remove_at tamano_usado_del_malloc tamano_usado_desde dir_vir_esta_en_umv
    auxiliar_para_ordenar
tres_lem = refl

crear_segmento-Resultado_example : Resultado lib basura dos 3 20 77 tres
crear_segmento-Resultado_example =
    crear_segmento-Resultado lib basura dos 3 20 dos-IsValid refl (omega arith) tres_lem

crear_segmento-IsValid_example : IsValid tres
crear_segmento-IsValid_example =
    crear_segmento-IsValid lib basura dos 3 20 dos-IsValid refl (omega arith) (omega arith)
      (omega arith) tres_lem

hueco_de_dos : Posicion dos.lista_de_segmentos 2 (seg 2 minus_one 0 30 1070)
hueco_de_dos = record {
  antes = seg 0 1 500 40 1000 ∷ seg 1 2 600 30 1040 ∷ [];
  despues = [];
  lista = refl;
  indice = refl;
}

crear_segmento-Asignado_example :
    (dir : ℕ) × (v : Umv) × (crear_segmento lib basura dos 3 20 ≡ some (dir, v))
    × Asignado dos v 3 20 dir
crear_segmento-Asignado_example =
    crear_segmento-Asignado lib basura dos 3 20 2 dos-IsValid refl (omega arith) (omega arith)
      (inl (omega arith)) hueco_de_dos refl (omega arith)

mayor_de :
    (algoritmo : ℕ)
    → EsMayor (fragmentos algoritmo).lista_de_segmentos 0 (seg 0 minus_one 0 35 1000)
mayor_de algoritmo = (
  record {
    antes = [];
    despues = seg 1 2 600 30 1035 ∷ seg 2 minus_one 0 35 1065 ∷ [];
    lista = refl;
    indice = refl;
  },
  refl,
  omega arith,
  (refl, (refl, (refl, tt))),
)

crear_segmento-peor_Asignado_example :
    (dir : ℕ) × (v : Umv) × (crear_segmento lib basura (fragmentos 2) 3 20 ≡ some (dir, v))
    × (a : Asignado (fragmentos 2) v 3 20 dir) × (a.vacio.tamano_segmento ≡ 35)
crear_segmento-peor_Asignado_example =
    crear_segmento-peor_Asignado lib basura (fragmentos 2) 3 20 0 (fragmentos-IsValid 2)
      (omega arith) (omega arith) (omega arith) (inl (omega arith)) (mayor_de 2) (omega arith)

crear_segmento-peor_invalido_example :
    (dir : ℕ) × (v : Umv) × (crear_segmento lib basura (fragmentos 2) 3 40 ≡ some (dir, v))
    × ¬ IsValid v
crear_segmento-peor_invalido_example =
    crear_segmento-peor_invalido lib basura (fragmentos 2) 3 40 0 (fragmentos-IsValid 2)
      (omega arith) (omega arith) (omega arith) (inl (omega arith)) (mayor_de 2) (omega arith)
