-- ===== src/Cpu/Primitivas/Llamadas/Contexto.antt =====
-- A whole call in proyectoCPU/primitivas.c: from `llamarSinRetorno` over whatever the function does above
-- its stack pointer to `finalizar`.
use personal_copy_tp.Common.{
  ℕ, ◌+◌, ◌-◌, ◌*◌, ◌^◌, ◌<◌, ◌≤◌, ◌≡◌, ap, sym, ◌∙◌, subst, inl, inr, some, List, arith,
  read_bytes, write_bytes, read-write_bytes, read-write_bytes-Apart, write_bytes_outside,
  read_bytes_cong, encode_int, Memory,
}
use personal_copy_tp.Commons.Strings.{StringOps}
use personal_copy_tp.Umv.Estado.{Segmento}
use personal_copy_tp.Umv.Acceso.{buscar_segmento}
use personal_copy_tp.Cpu.Primitivas.Textos.{remove_new_line}
use personal_copy_tp.Cpu.Primitivas.{Cpu, normal, vale, pila}
use personal_copy_tp.Cpu.Primitivas.Llamadas.{llamar_sin_retorno, finalizar}
use personal_copy_tp.Cpu.Primitivas.Llamadas.Pila.{EnSegmento, memoria, tope}
use personal_copy_tp.Cpu.Primitivas.Llamadas.Diccionario.{variables_en, variables_en_cong}
use personal_copy_tp.Cpu.Primitivas.Llamadas.Regreso.{
  borde, llamado, llamar_sin_retorno_lem, devuelto, finalizar_lem,
}

-- The dictionary holds the variables that stand on the stack, and the stack lies in its segment.
pub record Coherente (c : Cpu) (s : Segmento) : Type 0 where
  pub en : EnSegmento c s
  pub dentro :
      (pila c).stack_pointer + (pila c).context_size * 5 ≤ (pila c).base + s.tamano_segmento
  pub diccionario :
      c.variables ≡ variables_en (memoria c) (tope c s) (pila c).stack_pointer (pila c).context_size

-- From `l` to `d` the process stays normal, in the same function, and leaves the stack below its stack
-- pointer as it was.
pub record Conserva (l d : Cpu) (s : Segmento) : Type 0 where
  pub sigue : d.estado ≡ normal
  pub misma_base : (pila d).base ≡ (pila l).base
  pub mismo_tope : (pila d).stack_pointer ≡ (pila l).stack_pointer
  pub hallado :
      buscar_segmento d.hilo.umv.lista_de_segmentos (pila d).base d.hilo.pid_proceso_activo ≡ some s
  pub debajo : (q : ℕ) → q < tope l s → memoria d q ≡ memoria l q

-- The bytes below the stack pointer of a function that was just called.
module _ (m : Memory) (b sp pc : ℕ) where
  abbrev pub tras_marcas : Memory
  tras_marcas = write_bytes (write_bytes m b (encode_int sp)) (b + 4) (encode_int pc)

  pub marca-pc : read_bytes tras_marcas (b + 4) 4 ≡ encode_int pc
  unfolding encode_int
  marca-pc = read-write_bytes (write_bytes m b (encode_int sp)) (b + 4) (encode_int pc)

  pub marca-sp : read_bytes tras_marcas b 4 ≡ encode_int sp
  unfolding encode_int
  marca-sp =
      read-write_bytes-Apart (write_bytes m b (encode_int sp)) (b + 4) (encode_int pc) b 4
        (inr (omega arith))
      ∙ read-write_bytes m b (encode_int sp)

  pub marcas-debajo : (q : ℕ) → q < b → tras_marcas q ≡ m q
  marcas-debajo q h =
      write_bytes_outside (write_bytes m b (encode_int sp)) (b + 4) (encode_int pc) q
        (inl (omega arith))
      ∙ write_bytes_outside m b (encode_int sp) q (inl (omega arith))

-- The same for the state that the call leaves.
vuelta-llamado :
    (so : StringOps) (buscar : List ℕ → List ℕ → ℕ → ℕ) (c : Cpu) (s : Segmento) (nombre : List ℕ)
    (d : Cpu)
    → Coherente c s
    → c.current_pcb.program_counter < 2 ^ 32
    → (pila c).stack_pointer + (pila c).context_size * 5 + 8 ≤ (pila c).base + s.tamano_segmento
    → Conserva (llamado so buscar c s nombre) d s
    → finalizar d
      ≡ vale
          (devuelto d c.current_pcb.program_counter
            (pila c).stack_pointer
            (pila c).context_size
            c.variables)
          tt
vuelta-llamado so buscar c s nombre d k small room keep =
    let l = llamado so buscar c s nombre in
    let sp = (pila c).stack_pointer in
    let n = (pila c).context_size in
    let pc = c.current_pcb.program_counter in
    let b = borde c s in
    let low = k.en.base_le in
    let above : tope l s ≡ b + 8 = omega (arith, low) in
    let same : tope d s ≡ b + 8 = omega (arith, low, keep.misma_base, keep.mismo_tope) in
    let en' : EnSegmento d s = record {
      hallado = keep.hallado;
      tamano_int = k.en.tamano_int;
      direccionable = k.en.direccionable;
      base_int = omega (arith, keep.misma_base, k.en.base_int);
      base_le = omega (arith, keep.misma_base, keep.mismo_tope, low);
    } in
    let lee = λ (q : ℕ) (h : q + 4 ≤ b + 8).
      read_bytes_cong (memoria d) (memoria l) q 4
        (λ r _ below. keep.debajo r (omega (arith, above))) in
    let saved_pc : read_bytes (memoria d) (tope d s - 4) 4 ≡ encode_int pc =
      ap (λ q. read_bytes (memoria d) q 4) {y = b + 4} (omega (arith, same))
      ∙ lee (b + 4) (omega arith)
      ∙ marca-pc (memoria c) b sp pc in
    let saved_sp : read_bytes (memoria d) (tope d s - 8) 4 ≡ encode_int sp =
      ap (λ q. read_bytes (memoria d) q 4) {y = b} (omega (arith, same))
      ∙ lee b (omega arith)
      ∙ marca-sp (memoria c) b sp pc in
    let place : s.direccion_real + (sp - (pila d).base) ≡ tope c s =
      omega (arith, keep.misma_base) in
    let names : variables_en (memoria d) (tope c s) sp n ≡ c.variables =
      variables_en_cong (memoria d) (memoria c) (tope c s) sp n (λ i h.
        keep.debajo (tope c s + i * 5) (omega (arith, above))
        ∙ marcas-debajo (memoria c) b sp pc (tope c s + i * 5) (omega arith))
      ∙ sym k.diccionario in
    finalizar_lem d s pc sp n en' keep.sigue (omega (arith, keep.misma_base, low))
      (sym keep.mismo_tope) (omega (arith, keep.misma_base, keep.mismo_tope, room)) small saved_pc
      saved_sp
    ∙ ap (λ q. vale (devuelto d pc sp n (variables_en (memoria d) q sp n)) tt) place
    ∙ ap (λ v. vale (devuelto d pc sp n v) tt) names

-- A function called by `llamarSinRetorno` that leaves the stack below its stack pointer alone gives back,
-- by `finalizar`, the program counter, the stack pointer, the size of the context and the dictionary of
-- variables of its caller, if the caller's dictionary agreed with the stack and there was room for the
-- two words.
pub llamar_sin_retorno-finalizar :
    (so : StringOps) (buscar : List ℕ → List ℕ → ℕ → ℕ) (c : Cpu) (s : Segmento) (etiqueta : List ℕ)
    {nombre : List ℕ} {l d : Cpu}
    → Coherente c s
    → c.estado ≡ normal
    → c.current_pcb.program_counter < 2 ^ 32
    → (pila c).stack_pointer + (pila c).context_size * 5 + 8 ≤ (pila c).base + s.tamano_segmento
    → remove_new_line so etiqueta ≡ some nombre
    → llamar_sin_retorno so buscar c etiqueta ≡ vale l tt
    → Conserva l d s
    → finalizar d
      ≡ vale
          (devuelto d c.current_pcb.program_counter
            (pila c).stack_pointer
            (pila c).context_size
            c.variables)
          tt
llamar_sin_retorno-finalizar so buscar c s etiqueta {nombre} {l} {d} k e small room name called
      keep =
    let same : vale (llamado so buscar c s nombre) tt ≡ vale l tt =
      sym (llamar_sin_retorno_lem so buscar c s etiqueta k.en e room name) ∙ called in
    let eq : llamado so buscar c s nombre ≡ l = cc in
    vuelta-llamado so buscar c s nombre d k small room (subst (λ x. Conserva x d s) (sym eq) keep)
