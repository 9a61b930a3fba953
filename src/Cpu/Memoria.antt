-- ===== src/Cpu/Memoria.antt =====
-- The processor of proyectoCPU and the memory server of proyectoUMV together: a packet that
-- `paquete_escribirUMV` builds, handled by `cadaCPU`, then one of `paquete_leerUMV`.
use personal_copy_tp.Common.{
  ℕ, ◌^◌, ◌<◌, ◌≡◌, ap, ◌∙◌, ◌==◌, List, [], some, length, arith, take_all, false,
}
use personal_copy_tp.Sockets.{Paquete}
use personal_copy_tp.Sockets.Paquetes.{paquete}
use personal_copy_tp.Umv.Estado.{Umv}
use personal_copy_tp.Umv.Acceso.{hecho, pegar_bytes}
use personal_copy_tp.Umv.Acceso.Aislamiento.{leer-pegar_bytes}
use personal_copy_tp.Umv.Servidor.{
  listo, tras_leer, tras_escribir, HiloCpu, con_umv, cada_cpu, umv_mensaje_cpu_escribir,
  umv_mensaje_cpu_leer, texto_ok,
}
use personal_copy_tp.Umv.Servidor.Campos.{mensaje}
use personal_copy_tp.Umv.Servidor.Escrituras.{cada_cpu-escribir, cada_cpu-leer}
use personal_copy_tp.Cpu.Paquetes.{
  paquete_escribir_umv, paquete_leer_umv, paquete_escribir_umv_lem, paquete_leer_umv_lem,
}

-- Where the memory server grants the write of a buffer that is not empty, the processor's write
-- packet is answered with OK, and its next read packet for the same place with just those bytes.
pub escribir_y_leer :
    (h : HiloCpu) (base offset : ℕ) (bytes : List ℕ) {v : Umv}
    → base < 2 ^ 32
    → offset < 2 ^ 32
    → 0 < length bytes
    → length bytes < 2 ^ 31
    → pegar_bytes h.umv bytes base offset (length bytes) h.pid_proceso_activo ≡ hecho v
    → (p : Paquete) × (q : Paquete) × (paquete_escribir_umv base offset (length bytes) bytes
        ≡ some p)
      × (paquete_leer_umv base offset (length bytes) ≡ some q)
      × (cada_cpu h p ≡ listo (con_umv h v) (some (paquete umv_mensaje_cpu_escribir texto_ok)))
      × (cada_cpu (con_umv h v) q ≡ listo (con_umv h v) (some (paquete umv_mensaje_cpu_leer bytes)))
escribir_y_leer h base offset bytes {v} hb ho full small granted =
    let back =
      leer-pegar_bytes h.umv bytes base offset (length bytes) h.pid_proceso_activo small granted in
    let nonzero : (length bytes == 0) ≡ false = ground arith in
    let whole = take_all (length bytes) bytes (omega arith) in
    (
      paquete umv_mensaje_cpu_escribir (mensaje base offset (length bytes) bytes),
      paquete umv_mensaje_cpu_leer (mensaje base offset (length bytes) []),
      paquete_escribir_umv_lem base offset bytes small,
      paquete_leer_umv_lem base offset (length bytes),
      cada_cpu-escribir h base offset hb ho bytes (omega arith)
          ∙ ap (tras_escribir (con_umv h) h umv_mensaje_cpu_escribir) granted,
      cada_cpu-leer (con_umv h v) base offset hb ho (length bytes) [] (omega arith)
          ∙ ap (tras_leer (con_umv h v) (length bytes)) back
          ∙ rw (nonzero, whole),
    )
