-- ===== src/Kernel/Plp.antt =====
-- `pedirSegmento` of proyectoKernel/plp.c and the packet with which `atenderProgramaEntrante` writes
-- the index of the code of a program, against one round of `hiloKernel` of proyectoUMV/umv.c.
pub mod Segmentos
pub mod Admision
use personal_copy_tp.Common.{
  ℕ, ◌==◌, ◌++◌, List, Option, none, some, if◌then◌else◌, decode_int, encode_int,
}
use personal_copy_tp.Commons.{ListOps}
use personal_copy_tp.Sockets.{Paquete, pedir_paquete, aniadir_al_paquete}
use personal_copy_tp.Umv.Estado.{Segmento, Umv}
use personal_copy_tp.Umv.Servidor.{
  Vuelta, listo, termina, caida, espera, hilo_kernel, kernel_pedir_segmento_umv,
  kernel_escribir_segmento_umv, error_no_creo_segmento,
}

-- The packet of a request: the PID, then the size.
pub paquete_pedir_segmento : ℕ → ℕ → Option Paquete
paquete_pedir_segmento tamanio pid =
    pedir_paquete (encode_int pid ++ encode_int tamanio) kernel_pedir_segmento_umv 8

-- What the caller has afterwards: its `error`, the `int` at the start of the answer (`none` where the
-- answer is shorter than that), and the state of the memory server.
pub record Pedido : Type 0 where
  pub error : ℕ
  pub base : Option ℕ
  pub umv : Umv

-- `none` where no answer comes.
abbrev pub leer_respuesta : ℕ → Vuelta Umv → Option Pedido
leer_respuesta error (listo v (some p)) = some (record {
  error = if p.codigo_operacion == error_no_creo_segmento then 1 else error;
  base = decode_int p.datos;
  umv = v;
})
leer_respuesta error (listo v none) = none
leer_respuesta error termina = none
leer_respuesta error caida = none
leer_respuesta error espera = none

pub plp_pedir_segmento : ListOps Segmento → Segmento → Segmento → ℕ → Umv → ℕ → ℕ → Option Pedido
plp_pedir_segmento lib basura basura' error u tamanio pid =
    elim (paquete_pedir_segmento tamanio pid) [
      | none ↦ none
      | some p ↦ leer_respuesta error (hilo_kernel lib basura basura' u p)
    ]

-- The PID, the size of the index, its segment and its bytes.
pub paquete_escribir_indice : ℕ → ℕ → ℕ → List ℕ → Option Paquete
paquete_escribir_indice pid tamanio_data code_index serializado =
    elim (pedir_paquete (encode_int pid) kernel_escribir_segmento_umv 4) [
      | none ↦ none
      | some p ↦ elim (aniadir_al_paquete p (encode_int tamanio_data) 4) [
        | none ↦ none
        | some q ↦ elim (aniadir_al_paquete q (encode_int code_index) 4) [
          | none ↦ none
          | some r ↦ aniadir_al_paquete r serializado tamanio_data
        ]
      ]
    ]
