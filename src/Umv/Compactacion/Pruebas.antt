-- ===== src/Umv/Compactacion/Pruebas.antt =====
-- The theorems on `compactador` at small tables.
use personal_copy_tp.Common.{◌≡◌, refl, [], arith}
use personal_copy_tp.Umv.Invariante.{IsValid, usado}
use personal_copy_tp.Umv.Ejemplos.{
  lib, seg, fragmentos, fragmentos-IsValid, fragmentos-Ordered, fragmentos-Positivo, desordenada,
  desordenada-IsValid,
}
use personal_copy_tp.Umv.Acceso.{leer_bytes}
use personal_copy_tp.Umv.Compactacion.{compactador}
use personal_copy_tp.Umv.Compactacion.Correccion.{Compactado, compactador-Compactado}
use personal_copy_tp.Umv.Compactacion.Transparencia.{compactador_transparente, compactador-IsValid}
use personal_copy_tp.Umv.Compactacion.Desorden.{compactador_desordenado}

compactador-Compactado_example : Compactado (fragmentos 1) (compactador lib (fragmentos 1))
compactador-Compactado_example =
    compactador-Compactado lib (fragmentos 1) (fragmentos-IsValid 1) fragmentos-Ordered
      fragmentos-Positivo (omega arith)

compactador_transparente_example :
    leer_bytes (compactador lib (fragmentos 1)) 600 2 3 2 ≡ leer_bytes (fragmentos 1) 600 2 3 2
compactador_transparente_example =
    compactador_transparente lib (fragmentos 1) 600 2 3 2 (fragmentos-IsValid 1) fragmentos-Ordered
      fragmentos-Positivo (omega arith) (omega arith) (omega arith)

compactador-IsValid_example :
    IsValid (compactador lib (fragmentos 1))
    × (usado (compactador lib (fragmentos 1)).lista_de_segmentos
        ≡ usado (fragmentos 1).lista_de_segmentos)
compactador-IsValid_example =
    compactador-IsValid lib (fragmentos 1) (fragmentos-IsValid 1) fragmentos-Ordered
      fragmentos-Positivo

compactador_desordenado_example : ¬ IsValid (compactador lib desordenada)
compactador_desordenado_example =
    compactador_desordenado lib desordenada (seg 1 2 600 30 1040) (seg 3 3 700 10 1000) []
      desordenada-IsValid refl (omega arith) (omega arith)
