-- ===== src/Umv/Liberacion/Pruebas.antt =====
-- The theorems on the segments that are given back, at small tables.
use personal_copy_tp.Common.{◌≡◌, [], ◌∷◌, arith}
use personal_copy_tp.Umv.Ejemplos.{lib, dos, fragmentos}
use personal_copy_tp.Umv.Acceso.{denegado, leer_bytes, pegar_bytes}
use personal_copy_tp.Umv.Liberacion.{destruir_segmentos, elimina_vacios}
use personal_copy_tp.Umv.Liberacion.Vacios.{ocupados, elimina_vacios-ocupados}
use personal_copy_tp.Umv.Liberacion.Destruccion.{destruir_segmentos-accesos}

elimina_vacios_example :
    elimina_vacios lib (fragmentos 1).lista_de_segmentos
    ≡ ocupados (fragmentos 1).lista_de_segmentos
elimina_vacios_example = elimina_vacios-ocupados lib (fragmentos 1).lista_de_segmentos

destruir_segmentos-accesos_example :
    (leer_bytes (destruir_segmentos dos 1) 500 0 10 1 ≡ denegado)
    × (pegar_bytes (destruir_segmentos dos 1) (9 ∷ []) 500 0 10 1 ≡ denegado)
    × (leer_bytes (destruir_segmentos dos 1) 500 0 10 2 ≡ leer_bytes dos 500 0 10 2)
destruir_segmentos-accesos_example =
    destruir_segmentos-accesos dos 1 2 500 0 10 (9 ∷ []) (omega arith) (omega arith) (omega arith)
