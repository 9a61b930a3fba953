-- ===== src/Cpu/Primitivas/Llamadas/Diccionario.antt =====
-- `recreate_variable_dictionary` of proyectoCPU/common_execution.c: the dictionary that it builds holds
-- just the variables whose names stand on the stack.
use personal_copy_tp.Common.{
  ℕ, zero, suc, ◌+◌, ◌-◌, ◌*◌, ◌%◌, ◌^◌, ◌<◌, ◌≤◌, ◌≡◌, refl, ap, ap₂, ◌∙◌, ◌==◌, List, [], ◌∷◌,
  some, arith, int_add, int_sub, int_mod, false, if◌then◌else◌, read_bytes, Memory, get_elem?,
  Bool-cases, inl, inr,
}
use personal_copy_tp.Sockets.Paquetes.{paquete}
use personal_copy_tp.Umv.Estado.{Segmento}
use personal_copy_tp.Umv.Servidor.{tras_leer, umv_mensaje_cpu_leer}
use personal_copy_tp.Umv.Servidor.Escrituras.{cada_cpu-leer}
use personal_copy_tp.Cpu.Paquetes.{paquete_leer_umv_lem}
use personal_copy_tp.Cpu.Primitivas.{
  Cpu, Efecto, vale, ◌>>=◌, pila, recibir_respuesta, stack_offset_from_context,
}
use personal_copy_tp.Cpu.Primitivas.Llamadas.{
  solicitar_algo_umv, llenar_desde, llenar_diccionario, recreate_variable_dictionary,
}
use personal_copy_tp.Cpu.Primitivas.Llamadas.Pila.{EnSegmento, memoria, tope, leer-en}

-- The variables of a context of `n`: each has its name at a multiple of five bytes from the place `p`
-- of the memory, to which the stack pointer `sp` points.
abbrev pub variables_en : Memory → ℕ → ℕ → ℕ → List (ℕ × ℕ)
variables_en m p sp zero = []
variables_en m p sp (suc n) = (m (p + n * 5), sp + n * 5) ∷ variables_en m p sp n

pub variables_en_cong :
    (m m' : Memory) (p sp n : ℕ)
    → ((i : ℕ) → i < n → m (p + i * 5) ≡ m' (p + i * 5))
    → variables_en m p sp n ≡ variables_en m' p sp n
variables_en_cong m m' p sp zero h = refl
variables_en_cong m m' p sp (suc n) h =
    ap₂ (λ b (xs : List (ℕ × ℕ)). (b, sp + n * 5) ∷ xs) (h n (omega arith))
      (variables_en_cong m m' p sp n (λ i k. h i (omega arith)))

get_elem?-read_bytes :
    (m : Memory) (p n i : ℕ) → i < n → get_elem? (read_bytes m p n) i ≡ some (m (p + i))
unfolding read_bytes
get_elem?-read_bytes m p zero i h = absurd (omega arith)
get_elem?-read_bytes m p (suc n) zero h = ap (λ q. some (m q)) (omega arith)
get_elem?-read_bytes m p (suc n) (suc i) h =
    get_elem?-read_bytes m (p + 1) n i (omega arith) ∙ ap (λ q. some (m q)) (omega arith)

llenar_desde_lem :
    (m : Memory) (p sp k i n : ℕ)
    → i + k ≤ n
    → sp + n * 5 < 2 ^ 32
    → llenar_desde sp (read_bytes m p (n * 5)) k i (variables_en m p sp i)
      ≡ some (variables_en m p sp (i + k))
unfolding llenar_desde
llenar_desde_lem m p sp zero i n h small = ap (λ j. some (variables_en m p sp j)) (omega arith)
llenar_desde_lem m p sp (suc k) i n h small =
    let at : i * 5 % int_mod ≡ i * 5 = omega arith in
    let found = get_elem?-read_bytes m p (n * 5) (i * 5) (omega arith) in
    let place : int_add sp (i * 5 % int_mod) ≡ sp + i * 5 = omega arith in
    let next : i + 1 ≡ suc i = omega arith in
    rw (at, found, llenar_desde, place, next)
      (llenar_desde_lem m p sp k (suc i) n (omega arith) small
        ∙ ap (λ j. some (variables_en m p sp j)) (omega arith))

-- What the memory server sends for a read of `n` bytes.
abbrev enviado : ℕ → List ℕ → List ℕ
enviado n bytes = if n == 0 then 0 ∷ [] else bytes

llenar-enviado :
    (m : Memory) (p sp n : ℕ)
    → sp + n * 5 < 2 ^ 32
    → llenar_desde sp (enviado (n * 5) (read_bytes m p (n * 5))) n 0 []
      ≡ some (variables_en m p sp n)
unfolding llenar_desde
llenar-enviado m p sp zero small = refl
llenar-enviado m p sp (suc n) small =
    let nonzero : (suc n * 5 == 0) ≡ false = ground arith in
    rw nonzero (
      llenar_desde_lem m p sp (suc n) 0 (suc n) (omega arith) small
      ∙ ap (λ j. some (variables_en m p sp j)) {y = suc n} (omega arith))

module _ (c : Cpu) (s : Segmento) (en : EnSegmento c s) where
  solicitar_algo_umv-hecho :
      (n : ℕ)
      → (pila c).stack_pointer + n ≤ (pila c).base + s.tamano_segmento
      → solicitar_algo_umv c (pila c).base (int_sub (pila c).stack_pointer (pila c).base) n
        ≡ vale c (paquete umv_mensaje_cpu_leer (enviado n (read_bytes (memoria c) (tope c s) n)))
  unfolding solicitar_algo_umv recibir_respuesta
  solicitar_algo_umv-hecho n fits =
      let base = (pila c).base in
      let off = int_sub (pila c).stack_pointer base in
      let at : off ≡ (pila c).stack_pointer - base = omega (arith, en.base_int, en.base_le) in
      let read =
        leer-en c.hilo.umv base off c.hilo.pid_proceso_activo s n en.hallado en.tamano_int
          en.direccionable (omega (arith, at, en.base_le)) in
      let answer =
        cada_cpu-leer c.hilo base off (omega (arith, en.base_int)) (omega arith) n []
          (omega (arith, en.base_int))
        ∙ ap (tras_leer c.hilo n) read in
      rw (paquete_leer_umv_lem base off n, solicitar_algo_umv, answer)
        (elim (Bool-cases (n == 0)) [ inl z ↦ rw z | inr z ↦ rw (z, at) ])

-- The dictionary is read back from the stack.
pub recreate_variable_dictionary_lem :
    (c : Cpu) (s : Segmento)
    → EnSegmento c s
    → (pila c).stack_pointer + (pila c).context_size * 5 ≤ (pila c).base + s.tamano_segmento
    → recreate_variable_dictionary c
      ≡ vale
          (record c {
            variables =
                variables_en (memoria c) (tope c s) (pila c).stack_pointer (pila c).context_size;
          })
          tt
unfolding recreate_variable_dictionary llenar_diccionario
recreate_variable_dictionary_lem c s en fits =
    let vacia : Cpu = record c { variables = [] } in
    let sp = (pila c).stack_pointer in
    let n = (pila c).context_size in
    let small : sp + n * 5 < 2 ^ 32 = omega (arith, en.base_int) in
    let size : stack_offset_from_context (pila c) ≡ n * 5 = omega arith in
    let en' : EnSegmento vacia s = record {
      hallado = en.hallado;
      tamano_int = en.tamano_int;
      direccionable = en.direccionable;
      base_int = en.base_int;
      base_le = en.base_le;
    } in
    ap
      (λ k. solicitar_algo_umv vacia (pila c).base (int_sub sp (pila c).base) k >>= λ d r.
        llenar_diccionario d r.datos)
      size
    ∙ ap (λ (x : Efecto _). x >>= λ d r. llenar_diccionario d r.datos)
        (solicitar_algo_umv-hecho vacia s en' (n * 5) fits)
    ∙ rw (llenar-enviado (memoria c) (tope c s) sp n small, llenar_diccionario)
