-- ===== src/Umv/Servidor/Intercalado.antt =====
-- Rounds of `hiloKernel` and `cadaCPU` (proyectoUMV/umv.c) that several threads run in any order: what
-- those for other programs leave to the reads of one program.
use personal_copy_tp.Common.{
  ℕ, ◌+◌, ◌^◌, ◌<◌, ◌≡◌, ◌≢◌, refl, ap, sym, ◌∙◌, List, [], Option, length, arith, subst, inl, inr,
  ◌⊎◌, minus_one,
}
use personal_copy_tp.Sockets.{Paquete}
use personal_copy_tp.Sockets.Paquetes.{paquete}
use personal_copy_tp.Umv.Estado.{Umv}
use personal_copy_tp.Umv.Invariante.{IsValid}
use personal_copy_tp.Umv.Acceso.{Acceso, denegado, fallo, hecho, leer_bytes, pegar_bytes}
use personal_copy_tp.Umv.Acceso.Aislamiento.{leer-pegar_bytes_otro, pegar_bytes-IsValid}
use personal_copy_tp.Umv.Liberacion.{destruir_segmentos}
use personal_copy_tp.Umv.Liberacion.Destruccion.{
  destruir_segmentos-IsValid, leer_bytes-destruir_segmentos,
}
use personal_copy_tp.Umv.Servidor.{
  listo, tras_escribir, tras_leer, kernel_escribir, HiloCpu, con_umv, cada_cpu,
  kernel_escribir_segmento_umv, umv_mensaje_cpu_escribir, umv_mensaje_cpu_leer,
}
use personal_copy_tp.Umv.Servidor.Campos.{mensaje}
use personal_copy_tp.Umv.Servidor.Escrituras.{cada_cpu-escribir, cada_cpu-leer, kernel_escribir_lem}

-- A round by a thread that acts for a program other than `pid`, from one state of the shared memory to
-- the next: a CPU writes or reads, the kernel writes a segment or ends a program. Offset and length
-- of a write are not negative, and their sum is an `int`.
pub data PasoAjeno (pid : ℕ) (u v : Umv) : Type 0 where
  cpu_escribe :
      (h h' : HiloCpu) (base offset : ℕ) (bytes : List ℕ) (r : Option Paquete)
      → h.umv ≡ u
      → h'.umv ≡ v
      → h.pid_proceso_activo ≢ pid
      → base < 2 ^ 32
      → offset + length bytes < 2 ^ 31
      → cada_cpu h (paquete umv_mensaje_cpu_escribir (mensaje base offset (length bytes) bytes))
        ≡ listo h' r
      → PasoAjeno pid u v
  cpu_lee :
      (h h' : HiloCpu) (base offset tamano : ℕ) (r : Option Paquete)
      → h.umv ≡ u
      → h'.umv ≡ v
      → base < 2 ^ 32
      → offset < 2 ^ 32
      → tamano < 2 ^ 32
      → cada_cpu h (paquete umv_mensaje_cpu_leer (mensaje base offset tamano [])) ≡ listo h' r
      → PasoAjeno pid u v
  kernel_escribe :
      (otro segmento : ℕ) (bytes : List ℕ) (r : Option Paquete)
      → otro ≢ pid
      → otro < 2 ^ 32
      → segmento < 2 ^ 32
      → 0 < length bytes
      → length bytes < 2 ^ 31
      → kernel_escribir u (mensaje otro (length bytes) segmento bytes) ≡ listo v r
      → PasoAjeno pid u v
  kernel_destruye : (otro : ℕ) → otro ≢ pid → destruir_segmentos u otro ≡ v → PasoAjeno pid u v

pub data PasosAjenos (pid : ℕ) (u : Umv) : Umv → Type 0 where
  ninguno : PasosAjenos pid u u
  otro_paso : {v w : Umv} → PasosAjenos pid u v → PasoAjeno pid v w → PasosAjenos pid u w

-- What a write that was answered did.
tras_escribir-listo :
    {S : Type 0} (con : Umv → S) (s : S) (codigo : ℕ) (a : Acceso Umv) {t : S} {r : Option Paquete}
    → tras_escribir con s codigo a ≡ listo t r
    → (s ≡ t) ⊎ ((v : Umv) × (a ≡ hecho v) × (con v ≡ t))
tras_escribir-listo con s codigo denegado e = inl (cc)
tras_escribir-listo con s codigo fallo e = cc
tras_escribir-listo con s codigo (hecho v) e = inr (v, refl, cc)

tras_leer-listo :
    (h : HiloCpu) (tamano : ℕ) (a : Acceso (List ℕ)) {t : HiloCpu} {r : Option Paquete}
    → tras_leer h tamano a ≡ listo t r
    → h ≡ t
tras_leer-listo h tamano denegado e = cc
tras_leer-listo h tamano fallo e = cc
tras_leer-listo h tamano (hecho bytes) e = ground arith

-- What stays for the program `pid`.
abbrev Mantiene : ℕ → Umv → Umv → Type 0
Mantiene pid u v =
    IsValid v
    × ((base offset cantidad : ℕ)
        → offset + cantidad < 2 ^ 31
        → leer_bytes v base offset cantidad pid ≡ leer_bytes u base offset cantidad pid)

igual-Mantiene : (pid : ℕ) {u v : Umv} → IsValid u → u ≡ v → Mantiene pid u v
igual-Mantiene pid {u} i e = subst (Mantiene pid u) e (i, λ base offset cantidad h. refl)

escritura-Mantiene :
    (pid otro base offset : ℕ) (bytes : List ℕ) {u v : Umv}
    → IsValid u
    → otro ≢ pid
    → offset + length bytes < 2 ^ 31
    → pegar_bytes u bytes base offset (length bytes) otro ≡ hecho v
    → Mantiene pid u v
escritura-Mantiene pid otro base offset bytes {u} i d small e = (
  pegar_bytes-IsValid u bytes base offset (length bytes) otro i e,
  λ base' offset' cantidad h.
      leer-pegar_bytes_otro u bytes base offset otro base' offset' cantidad pid i small h (inr d) e,
)

PasoAjeno-Mantiene :
    (pid : ℕ) {u v : Umv} → pid ≢ minus_one → IsValid u → PasoAjeno pid u v → Mantiene pid u v
PasoAjeno-Mantiene pid n i (cpu_escribe h h' base offset bytes r eu ev d hb small e) =
    let done =
      tras_escribir-listo (con_umv h) h umv_mensaje_cpu_escribir _
        (sym (cada_cpu-escribir h base offset hb (omega arith) bytes (omega arith)) ∙ e) in
    elim done [
      | inl same ↦ igual-Mantiene pid i (sym eu ∙ ap (λ (k : HiloCpu). k.umv) same ∙ ev)
      | inr (w, q, same) ↦ subst (Mantiene pid _) (ap (λ (k : HiloCpu). k.umv) same ∙ ev) (
          escritura-Mantiene pid h.pid_proceso_activo base offset bytes i d small (
            ap (λ x. pegar_bytes x bytes base offset (length bytes) h.pid_proceso_activo) (sym eu)
            ∙ q))
    ]
PasoAjeno-Mantiene pid n i (cpu_lee h h' base offset tamano r eu ev hb ho ht e) =
    let same =
      tras_leer-listo h tamano _ (sym (cada_cpu-leer h base offset hb ho tamano [] ht) ∙ e) in
    igual-Mantiene pid i (sym eu ∙ ap (λ (k : HiloCpu). k.umv) same ∙ ev)
PasoAjeno-Mantiene pid {u} n i (kernel_escribe otro segmento bytes r d ho hs full small e) =
    let done =
      tras_escribir-listo (λ v. v) u kernel_escribir_segmento_umv _
        (sym (kernel_escribir_lem u otro segmento bytes ho hs full (omega arith)) ∙ e) in
    elim done [
      | inl same ↦ igual-Mantiene pid i same
      | inr (w, q, same) ↦
          subst (Mantiene pid u) same
            (escritura-Mantiene pid otro segmento 0 bytes i d (omega arith) q)
    ]
PasoAjeno-Mantiene pid {u} n i (kernel_destruye otro d e) = subst (Mantiene pid u) e (
  destruir_segmentos-IsValid u otro i,
  λ base offset cantidad h.
      leer_bytes-destruir_segmentos u otro pid base offset cantidad (λ q. d (sym q)) n,
)

-- From a valid table on, whatever other CPUs read, whatever they write at an offset and with a length that
-- are not negative and whose sum is an `int`, and whatever the kernel writes or ends for other programs, in
-- any order and any number of rounds, a program reads what it would have read before, if its own offset and
-- length are of this kind too, and the table stays valid.
pub PasosAjenos-lectura :
    (pid : ℕ) {u v : Umv} (base offset cantidad : ℕ)
    → pid ≢ minus_one
    → IsValid u
    → PasosAjenos pid u v
    → offset + cantidad < 2 ^ 31
    → IsValid v × (leer_bytes v base offset cantidad pid ≡ leer_bytes u base offset cantidad pid)
PasosAjenos-lectura pid base offset cantidad n i ninguno h = (i, refl)
PasosAjenos-lectura pid base offset cantidad n i (otro_paso ps p) h =
    let before = PasosAjenos-lectura pid base offset cantidad n i ps h in
    let step = PasoAjeno-Mantiene pid n before.0 p in
    (step.0, step.1 base offset cantidad h ∙ before.1)
