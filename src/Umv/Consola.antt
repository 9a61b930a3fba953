-- ===== src/Umv/Consola.antt =====
-- The start of proyectoUMV/umv.c and its console: one round of `consola`, which like a round of the other
-- threads runs between `pthread_mutex_lock` and `pthread_mutex_unlock`.
pub mod Validez
mod Pruebas
use personal_copy_tp.Common.{ℕ, ◌==◌, List, [], ◌∷◌, none, some, if◌then◌else◌, Memory}
use personal_copy_tp.Commons.{ListOps}
use personal_copy_tp.Umv.Estado.{Segmento, Configuracion, Solape, Umv, cambiar_algoritmo}
use personal_copy_tp.Umv.Acceso.{Acceso, denegado, fallo, hecho, pegar_bytes}
use personal_copy_tp.Umv.Asignacion.{crear_segmento}
use personal_copy_tp.Umv.Liberacion.{destruir_segmentos, elimina_segmento}
use personal_copy_tp.Umv.Compactacion.{compactador}
use personal_copy_tp.Umv.Servidor.{Vuelta, listo, termina, caida, espera}

-- After `testCargarConfiguracion`; a global starts at 0.
unfoldable pub cargar_configuracion : Configuracion → Memory → List ℕ → Solape → Umv
unfolding cambiar_algoritmo
cargar_configuracion configuracion memoria aleatorios solapado =
    cambiar_algoritmo
      (record {
        configuracion = configuracion;
        lista_de_segmentos = [];
        algoritmo_activo = 0;
        id_siguiente = 0;
        memoria = memoria;
        aleatorios = aleatorios;
        solapado = solapado;
      })
      1

-- What is typed at the console: the number of the order and its values. `crea` carries the uninitialised
-- struct of `crearSegmento`, `escribe` the buffer into which the text is read. `muestra` stands for the
-- orders that only print (3, 9, 10 and 13) and for the numbers of no order.
pub data Orden : Type 0 where
  crea : Segmento → ℕ → ℕ → Orden
  elimina : ℕ → Orden
  destruye : ℕ → Orden
  compacta : Orden
  retarda : ℕ → Orden
  cambia : Orden
  muestra : Orden
  lee : ℕ → ℕ → ℕ → ℕ → Orden
  escribe : List ℕ → ℕ → ℕ → ℕ → ℕ → Orden
  sale : Orden

abbrev pub tras_pegar : Umv → Acceso Umv → Vuelta Umv
tras_pegar u denegado = listo u none
tras_pegar u fallo = caida
tras_pegar u (hecho v) = listo v none

abbrev pub otro_algoritmo : Umv → ℕ
otro_algoritmo u = if u.algoritmo_activo == 1 then 2 else 1

abbrev pub con_retardo : Umv → ℕ → Umv
con_retardo u n = record u { configuracion = record (u.configuracion) { retardo = n } }

-- The order that reads bytes copies one byte more than `leerBytes` gives, and puts the final zero on the
-- stack at a place that is not its own: what it does then is not defined, and is `caida`.
unfoldable pub consola : ListOps Segmento → Umv → Orden → Vuelta Umv
consola lib u (crea basura pid tamano) = elim (crear_segmento lib basura u pid tamano) [
  | none ↦ espera
  | some (dir, v) ↦ listo v none
]
consola lib u (elimina numero) = elim (elimina_segmento lib u numero) [
  | none ↦ caida
  | some v ↦ listo v none
]
consola lib u (destruye pid) = listo (destruir_segmentos u pid) none
consola lib u compacta = listo (compactador lib u) none
consola lib u (retarda n) = listo (con_retardo u n) none
consola lib u cambia = listo (cambiar_algoritmo u (otro_algoritmo u)) none
consola lib u muestra = listo u none
consola lib u (lee segmento offset cantidad pid) = caida
consola lib u (escribe texto segmento offset cantidad pid) =
    tras_pegar u (pegar_bytes u texto segmento offset cantidad pid)
consola lib u sale = termina

-- The orders of `test`, in which each new segment has its own uninitialised struct.
abbrev pub ordenes_de_test : (ℕ → Segmento) → List Orden
ordenes_de_test basura =
    crea (basura 0) 1 100
    ∷ muestra
    ∷ crea (basura 1) 1 100
    ∷ muestra
    ∷ crea (basura 2) 3 100
    ∷ crea (basura 3) 3 100
    ∷ elimina 0
    ∷ elimina 1
    ∷ crea (basura 4) 4 50
    ∷ crea (basura 5) 4 70
    ∷ destruye 4
    ∷ crea (basura 6) 5 150
    ∷ []

abbrev pub seguir : (Umv → Vuelta Umv) → Vuelta Umv → Vuelta Umv
seguir f (listo v r) = f v
seguir f termina = termina
seguir f caida = caida
seguir f espera = espera

-- Orders one after another, as the first order of the console, `test`, gives them.
pub ejecutar_ordenes : ListOps Segmento → Umv → List Orden → Vuelta Umv
ejecutar_ordenes lib u [] = listo u none
ejecutar_ordenes lib u (o ∷ ordenes) =
    seguir (λ v. ejecutar_ordenes lib v ordenes) (consola lib u o)
