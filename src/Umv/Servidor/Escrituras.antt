-- ===== src/Umv/Servidor/Escrituras.antt =====
-- `hiloKernel` and `cadaCPU` of proyectoUMV/umv.c on messages whose fields are whole: which access of
-- the segments each one makes.
use mathlib.Core.List.{append-nil}
use personal_copy_tp.Common.{subst, [], ℕ, ◌^◌, ◌<◌, ◌≡◌, ◌==◌, List, ◌++◌, length, arith, false}
use personal_copy_tp.Sockets.Paquetes.{paquete, copiar_all, copiar-prefijo}
use personal_copy_tp.Umv.Estado.{Umv}
use personal_copy_tp.Umv.Acceso.{leer_bytes, pegar_bytes}
use personal_copy_tp.Umv.Servidor.{
  tras_escribir, tras_leer, kernel_escribir, HiloCpu, con_umv, cpu_escribir, cpu_leer, cada_cpu,
  kernel_escribir_segmento_umv, umv_mensaje_cpu_escribir, umv_mensaje_cpu_leer,
}
use personal_copy_tp.Umv.Servidor.Campos.{
  mensaje, campo-first, campo-second, campo-third, drop-mensaje,
}

module _ (h : HiloCpu) (base offset : ℕ) (hb : base < 2 ^ 32) (ho : offset < 2 ^ 32) where
  pub cada_cpu-escribir :
      (bytes : List ℕ)
      → length bytes < 2 ^ 32
      → cada_cpu h (paquete umv_mensaje_cpu_escribir (mensaje base offset (length bytes) bytes))
        ≡ tras_escribir
            (con_umv h)
            h
            umv_mensaje_cpu_escribir
            (pegar_bytes h.umv bytes base offset (length bytes) h.pid_proceso_activo)
  unfolding cada_cpu cpu_escribir
  cada_cpu-escribir bytes small = rw (
    campo-first base offset (length bytes) bytes hb,
    cpu_escribir,
    campo-second base offset (length bytes) bytes ho,
    campo-third base offset (length bytes) bytes small,
    drop-mensaje base offset (length bytes) bytes,
    copiar_all bytes,
  )

  pub cada_cpu-leer :
      (tamano : ℕ) (rest : List ℕ)
      → tamano < 2 ^ 32
      → cada_cpu h (paquete umv_mensaje_cpu_leer (mensaje base offset tamano rest))
        ≡ tras_leer h tamano (leer_bytes h.umv base offset tamano h.pid_proceso_activo)
  unfolding cada_cpu cpu_leer
  cada_cpu-leer tamano rest small = rw (
    campo-first base offset tamano rest hb,
    cpu_leer,
    campo-second base offset tamano rest ho,
    campo-third base offset tamano rest small,
  )

-- Bytes behind those of the write do not matter.
pub kernel_escribir-sobra :
    (u : Umv) (pid segmento : ℕ) (bytes sobra : List ℕ)
    → pid < 2 ^ 32
    → segmento < 2 ^ 32
    → 0 < length bytes
    → length bytes < 2 ^ 32
    → kernel_escribir u (mensaje pid (length bytes) segmento (bytes ++ sobra))
      ≡ tras_escribir
          (λ v. v)
          u
          kernel_escribir_segmento_umv
          (pegar_bytes u bytes segmento 0 (length bytes) pid)
unfolding kernel_escribir
kernel_escribir-sobra u pid segmento bytes sobra hp hs some_bytes small =
    let full : (length bytes == 0) ≡ false = ground arith in
    rw (
      campo-first pid (length bytes) segmento (bytes ++ sobra) hp,
      kernel_escribir,
      campo-second pid (length bytes) segmento (bytes ++ sobra) small,
      campo-third pid (length bytes) segmento (bytes ++ sobra) hs,
      drop-mensaje pid (length bytes) segmento (bytes ++ sobra),
      copiar-prefijo bytes sobra,
      full,
    )

pub kernel_escribir_lem :
    (u : Umv) (pid segmento : ℕ) (bytes : List ℕ)
    → pid < 2 ^ 32
    → segmento < 2 ^ 32
    → 0 < length bytes
    → length bytes < 2 ^ 32
    → kernel_escribir u (mensaje pid (length bytes) segmento bytes)
      ≡ tras_escribir
          (λ v. v)
          u
          kernel_escribir_segmento_umv
          (pegar_bytes u bytes segmento 0 (length bytes) pid)
kernel_escribir_lem u pid segmento bytes hp hs some_bytes small =
    subst
      (λ xs.
        kernel_escribir u (mensaje pid (length bytes) segmento xs)
        ≡ tras_escribir (λ v. v) u kernel_escribir_segmento_umv
            (pegar_bytes u bytes segmento 0 (length bytes) pid))
      (append-nil bytes) (kernel_escribir-sobra u pid segmento bytes [] hp hs some_bytes small)
