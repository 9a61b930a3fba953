-- ===== src/Umv/Servidor.antt =====
-- The two message loops of proyectoUMV/umv.c, one round each: `hiloKernel` and `cadaCPU`. A round runs
-- between `pthread_mutex_lock` and `pthread_mutex_unlock`, so rounds of several threads follow one
-- another.
pub mod Campos
pub mod Pedidos
pub mod Escrituras
pub mod Intercalado
mod Pruebas
use personal_copy_tp.Common.{
  ℕ, ◌+◌, ◌==◌, ◌∷◌, [], List, Option, none, some, if◌then◌else◌, drop, decode_int, encode_int,
  int_leb, minus_one, length,
}
use personal_copy_tp.Commons.{ListOps}
use personal_copy_tp.Sockets.{Paquete, copiar}
use personal_copy_tp.Sockets.Paquetes.{paquete}
use personal_copy_tp.Umv.Estado.{Segmento, Umv}
use personal_copy_tp.Umv.Acceso.{Acceso, denegado, fallo, hecho, leer_bytes, pegar_bytes}
use personal_copy_tp.Umv.Asignacion.{crear_segmento}
use personal_copy_tp.Umv.Liberacion.{destruir_segmentos}
use personal_copy_tp.Umv.Compactacion.{compactador}

-- conitos_protocol.h
abbrev pub kernel_pedir_segmento_umv : ℕ
kernel_pedir_segmento_umv = 11

abbrev pub kernel_escribir_segmento_umv : ℕ
kernel_escribir_segmento_umv = 12

abbrev pub kernel_destruir_segmentos_programa : ℕ
kernel_destruir_segmentos_programa = 14

abbrev pub umv_mensaje_cpu_escribir : ℕ
umv_mensaje_cpu_escribir = 5

abbrev pub umv_mensaje_cpu_leer : ℕ
umv_mensaje_cpu_leer = 71

abbrev pub umv_proceso_activo_cpu : ℕ
umv_proceso_activo_cpu = 25

abbrev pub umv_cae_cpu : ℕ
umv_cae_cpu = 123

abbrev pub error_no_creo_segmento : ℕ
error_no_creo_segmento = 6

abbrev pub error_fallo_segmento : ℕ
error_fallo_segmento = 7

abbrev pub error_codigo_invalido : ℕ
error_codigo_invalido = 8

-- The texts of the answers, with their final zero.
abbrev pub texto_ok : List ℕ
texto_ok = 79 ∷ 75 ∷ 0 ∷ []

abbrev pub texto_sf : List ℕ
texto_sf = 83 ∷ 70 ∷ 0 ∷ []

abbrev pub texto_no : List ℕ
texto_no = 78 ∷ 79 ∷ 0 ∷ []

abbrev pub texto_ff : List ℕ
texto_ff = 70 ∷ 70 ∷ 0 ∷ []

-- How a round ends: with the new state and the answer that is sent, if any; with the end of the
-- thread; with a read outside a packet or a `memcpy` that kills the process; or not, where `rand`
-- has no further value at hand.
pub data Vuelta (S : Type 0) : Type 0 where
  listo : S → Option Paquete → Vuelta S
  termina : Vuelta S
  caida : Vuelta S
  espera : Vuelta S

-- The `int` at a place of the data.
abbrev pub campo : ℕ → List ℕ → Option ℕ
campo i datos = decode_int (drop i datos)

abbrev pub con_int : ℕ → Paquete
con_int n = paquete kernel_pedir_segmento_umv (encode_int n)

abbrev pub tras_escribir : {S : Type 0} → (Umv → S) → S → ℕ → Acceso Umv → Vuelta S
tras_escribir con s codigo denegado = listo s (some (paquete error_fallo_segmento texto_sf))
tras_escribir con s codigo fallo = caida
tras_escribir con s codigo (hecho v) = listo (con v) (some (paquete codigo texto_ok))

pub kernel_escribir : Umv → List ℕ → Vuelta Umv
kernel_escribir u datos = elim (campo 0 datos) [
  | none ↦ caida
  | some pid ↦ elim (campo 4 datos) [
    | none ↦ caida
    | some tamano ↦ elim (campo 8 datos) [
      | none ↦ caida
      | some segmento ↦ elim (copiar (drop 12 datos) tamano) [
        | none ↦ caida
        | some bytes ↦
            if tamano == 0
            then listo u (some (con_int minus_one))
            else tras_escribir (λ v. v) u kernel_escribir_segmento_umv
                (pegar_bytes u bytes segmento 0 tamano pid)
      ]
    ]
  ]
]

module _ (lib : ListOps Segmento) where
  -- The second try, after the compaction.
  pub reintentar : Segmento → Umv → ℕ → ℕ → Vuelta Umv
  reintentar basura u pid tamano = elim (crear_segmento lib basura u pid tamano) [
    | none ↦ espera
    | some (dir, v) ↦
        if int_leb 0 dir
        then listo v (some (con_int dir))
        else listo v (some (paquete error_no_creo_segmento texto_no))
  ]

  -- `basura` and `basura'` are the uninitialised structs of the two calls of `crearSegmento`.
  unfoldable pub pedir_segmento : Segmento → Segmento → Umv → ℕ → ℕ → Vuelta Umv
  pedir_segmento basura basura' u pid tamano =
      if tamano == 0
      then listo u (some (con_int minus_one))
      else elim (crear_segmento lib basura u pid tamano) [
        | none ↦ espera
        | some (dir, v) ↦
            if int_leb 0 dir
            then listo v (some (con_int dir))
            else reintentar basura' (compactador lib v) pid tamano
      ]

  unfoldable pub kernel_pedir : Segmento → Segmento → Umv → List ℕ → Vuelta Umv
  kernel_pedir basura basura' u datos = elim (campo 0 datos) [
    | none ↦ caida
    | some pid ↦ elim (campo 4 datos) [
      | none ↦ caida
      | some tamano ↦ pedir_segmento basura basura' u pid tamano
    ]
  ]

  unfoldable pub hilo_kernel : Segmento → Segmento → Umv → Paquete → Vuelta Umv
  hilo_kernel basura basura' u p =
      if p.codigo_operacion == kernel_escribir_segmento_umv
      then kernel_escribir u p.datos
      else if p.codigo_operacion == kernel_pedir_segmento_umv
      then kernel_pedir basura basura' u p.datos
      else if p.codigo_operacion == kernel_destruir_segmentos_programa
      then elim (campo 0 p.datos) [
        | none ↦ caida
        | some pid ↦ listo (destruir_segmentos u pid) none
      ]
      else listo u none

-- The thread of one CPU: its own `PIDProcesoActivo`, and the memory that all share.
pub record HiloCpu : Type 0 where
  pub umv : Umv
  pub pid_proceso_activo : ℕ

abbrev pub con_umv : HiloCpu → Umv → HiloCpu
con_umv h u = record h { umv = u }

pub cpu_escribir : HiloCpu → List ℕ → Vuelta HiloCpu
cpu_escribir h datos = elim (campo 0 datos) [
  | none ↦ caida
  | some segmento ↦ elim (campo 4 datos) [
    | none ↦ caida
    | some offset ↦ elim (campo 8 datos) [
      | none ↦ caida
      | some tamano ↦ elim (copiar (drop 12 datos) tamano) [
        | none ↦ caida
        | some bytes ↦
            tras_escribir (con_umv h) h umv_mensaje_cpu_escribir
              (pegar_bytes h.umv bytes segmento offset tamano h.pid_proceso_activo)
      ]
    ]
  ]
]

abbrev pub tras_leer : HiloCpu → ℕ → Acceso (List ℕ) → Vuelta HiloCpu
tras_leer h tamano denegado = listo h (some (paquete error_fallo_segmento texto_sf))
tras_leer h tamano fallo = caida
tras_leer h tamano (hecho bytes) =
    if tamano == 0
    then listo h (some (paquete umv_mensaje_cpu_leer (0 ∷ [])))
    else listo h (some (paquete umv_mensaje_cpu_leer bytes))

unfoldable pub cpu_leer : HiloCpu → List ℕ → Vuelta HiloCpu
cpu_leer h datos = elim (campo 0 datos) [
  | none ↦ caida
  | some segmento ↦ elim (campo 4 datos) [
    | none ↦ caida
    | some offset ↦ elim (campo 8 datos) [
      | none ↦ caida
      | some tamano ↦
          tras_leer h tamano (leer_bytes h.umv segmento offset tamano h.pid_proceso_activo)
    ]
  ]
]

unfoldable pub cada_cpu : HiloCpu → Paquete → Vuelta HiloCpu
cada_cpu h p =
    if p.codigo_operacion == umv_mensaje_cpu_escribir
    then cpu_escribir h p.datos
    else if p.codigo_operacion == umv_mensaje_cpu_leer
    then cpu_leer h p.datos
    else if p.codigo_operacion == umv_proceso_activo_cpu
    then elim (campo 0 p.datos) [
      | none ↦ caida
      | some pid ↦
          listo (record h { pid_proceso_activo = pid })
            (some (paquete umv_proceso_activo_cpu texto_ok))
    ]
    else if p.codigo_operacion == umv_cae_cpu
    then termina
    else listo h (some (paquete error_codigo_invalido texto_ff))
