-- ===== src/Umv/Servidor/Pruebas.antt =====
-- The theorems on the message loops of proyectoUMV/umv.c at small tables.
use personal_copy_tp.Common.{ℕ, ◌≡◌, refl, arith, inl, some}
use personal_copy_tp.Umv.Estado.{Umv}
use personal_copy_tp.Umv.Invariante.{IsValid}
use personal_copy_tp.Umv.Ejemplos.{
  lib, basura, dos, dos-IsValid, fragmentos, fragmentos-IsValid, fragmentos-Ordered,
  fragmentos-Positivo,
}
use personal_copy_tp.Umv.Acceso.{leer_bytes}
use personal_copy_tp.Umv.Asignacion.{crear_segmento, ordenar}
use personal_copy_tp.Umv.Asignacion.Validez.{Asignado}
use personal_copy_tp.Umv.Liberacion.{destruir_segmentos}
use personal_copy_tp.Umv.Compactacion.{compactador}
use personal_copy_tp.Umv.Servidor.{listo, pedir_segmento, con_int}
use personal_copy_tp.Umv.Servidor.Pedidos.{pedir_segmento-fragmentado, compactador-alcanza}
use personal_copy_tp.Umv.Servidor.Intercalado.{
  kernel_destruye, PasosAjenos, ninguno, otro_paso, PasosAjenos-lectura,
}

pedir_segmento-fragmentado_example :
    pedir_segmento lib basura basura (fragmentos 1) 3 40
    ≡ listo (ordenar lib (fragmentos 1)) (some (con_int 7))
pedir_segmento-fragmentado_example =
    pedir_segmento-fragmentado lib basura (fragmentos 1) basura 3 40 (fragmentos-IsValid 1) refl
      (omega arith) (omega arith) (omega arith) (λ e. cc) (refl, (refl, (refl, tt))) (omega arith)

compactador-alcanza_example :
    (dir : ℕ) × (w : Umv) × (crear_segmento lib basura (compactador lib (fragmentos 1)) 3 40
      ≡ some (dir, w))
    × Asignado (compactador lib (fragmentos 1)) w 3 40 dir
compactador-alcanza_example =
    compactador-alcanza lib basura (fragmentos 1) 3 40 (fragmentos-IsValid 1) fragmentos-Ordered
      fragmentos-Positivo refl (omega arith) (omega arith) (omega arith) (inl (omega arith))

un_paso : PasosAjenos 2 dos (destruir_segmentos dos 1)
un_paso = otro_paso ninguno (kernel_destruye 1 (omega arith) refl)

PasosAjenos-lectura_example :
    IsValid (destruir_segmentos dos 1)
    × (leer_bytes (destruir_segmentos dos 1) 600 2 3 2 ≡ leer_bytes dos 600 2 3 2)
PasosAjenos-lectura_example =
    PasosAjenos-lectura 2 600 2 3 (omega arith) dos-IsValid un_paso (omega arith)
