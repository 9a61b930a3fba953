-- ===== src/Kernel/Plp/Admision/Escrituras.antt =====
-- The writes of `atenderProgramaEntrante` of proyectoKernel/plp.c into the segments of a new program, each one
-- a round of `hiloKernel`.
use personal_copy_tp.Common.{
  ℕ, ◌^◌, ◌<◌, ◌≤◌, ◌==◌, ◌≡◌, ◌∙◌, ap, List, ◌++◌, Option, some, false, length, take_all, arith,
  write_bytes, ptr_add_nonneg, minus_one,
}
use personal_copy_tp.Commons.{ListOps}
use personal_copy_tp.Sockets.{Paquete}
use personal_copy_tp.Sockets.Paquetes.{paquete}
use personal_copy_tp.Umv.Estado.{Segmento, Umv}
use personal_copy_tp.Umv.Invariante.{IsValid}
use personal_copy_tp.Umv.Acceso.{hecho, buscar_segmento, pegar_bytes}
use personal_copy_tp.Umv.Acceso.Aislamiento.{memoria-IsValid}
use personal_copy_tp.Umv.Acceso.Limites.{found-EnPool}
use personal_copy_tp.Umv.Servidor.{tras_escribir, hilo_kernel, kernel_escribir_segmento_umv}
use personal_copy_tp.Umv.Servidor.Campos.{mensaje}
use personal_copy_tp.Umv.Servidor.Escrituras.{kernel_escribir-sobra}
use personal_copy_tp.Kernel.Plp.Admision.{con_respuesta, escribir_en}

-- Process `pid` has a segment at the address `dir` that holds `n` bytes, `n` not 0.
pub record Alojado (u : Umv) (pid dir n : ℕ) : Type 0 where
  pub segmento : Segmento
  pub hallado : buscar_segmento u.lista_de_segmentos dir pid ≡ some segmento
  pub caben : n ≤ segmento.tamano_segmento
  pub lleno : 0 < n
  pub direccion : dir < 2 ^ 31

-- What a write of `bytes` at the start of that segment leaves.
abbrev pub escrito : (u : Umv) {pid dir n : ℕ} → Alojado u pid dir n → List ℕ → Umv
escrito u a bytes = record u { memoria = write_bytes u.memoria a.segmento.direccion_real bytes }

module _ (u : Umv) (pid dir : ℕ) (bytes : List ℕ) (i : IsValid u)
    (a : Alojado u pid dir (length bytes)) where
  pub Alojado-corto : length bytes < 2 ^ 31
  Alojado-corto = let p = found-EnPool u dir pid i a.hallado in let h = a.caben in omega (arith)

  pub pegar_bytes-Alojado : pegar_bytes u bytes dir 0 (length bytes) pid ≡ hecho (escrito u a bytes)
  unfolding pegar_bytes
  pegar_bytes-Alojado =
      let p = found-EnPool u dir pid i a.hallado in
      let h = a.caben in
      let k = i.direccionable in
      let small = Alojado-corto in
      let whole = take_all (length bytes) bytes (omega arith) in
      let place = ptr_add_nonneg a.segmento.direccion_real 0 (omega arith) (omega arith) in
      rw (a.hallado, pegar_bytes, whole) (ground (arith, place))

  pub escrito-IsValid : IsValid (escrito u a bytes)
  escrito-IsValid = memoria-IsValid u _ i

  pub escribir_en-Alojado :
      (lib : ListOps Segmento) (basura : ℕ → Segmento) (sobra : List ℕ) (p : Option Paquete)
      → pid < 2 ^ 32
      → p
        ≡ some
            (paquete kernel_escribir_segmento_umv (mensaje pid (length bytes) dir (bytes ++ sobra)))
      → escribir_en lib basura dir p u ≡ some (escrito u a bytes)
  unfolding escribir_en hilo_kernel
  escribir_en-Alojado lib basura sobra p hp e =
      rw (e, escribir_en)
        (let far : (dir == minus_one) ≡ false = let h = a.direccion in ground arith in
          rw (far, escribir_en)
            (ap con_respuesta (
              kernel_escribir-sobra u pid dir bytes sobra hp (omega (arith, a.direccion)) a.lleno
                (omega (arith, Alojado-corto))
              ∙ ap (tras_escribir (λ v. v) u kernel_escribir_segmento_umv) pegar_bytes-Alojado)))
