-- ===== src/Cpu/Primitivas/Llamadas/Regreso.antt =====
-- A call and its return in proyectoCPU/primitivas.c: `finalizar` gives back the context from which
-- `llamarSinRetorno` went away.
use personal_copy_tp.Common.{
  ℕ, ◌+◌, ◌-◌, ◌*◌, ◌^◌, ◌<◌, ◌≤◌, ◌≡◌, refl, ap, ◌∙◌, List, [], some, arith, int_add, int_sub,
  int_mod, ◌%◌, ◌/◌, ◌==◌, false, read_bytes, encode_int, decode_int,
}
use personal_copy_tp.Commons.Strings.{StringOps}
use personal_copy_tp.Umv.Estado.{Segmento}
use personal_copy_tp.Cpu.Primitivas.Textos.{remove_new_line}
use personal_copy_tp.Cpu.Primitivas.{
  Cpu, Efecto, normal, vale, ◌>>=◌, pila, con_pila, si_normal, stack_push,
  stack_offset_from_context,
}
use personal_copy_tp.Cpu.Primitivas.Variables.{value-back}
use personal_copy_tp.Cpu.Primitivas.Llamadas.{
  texto_desborde, con_pc, stack_pop, change_context_common_push, stack_change_context,
  buscar_etiqueta, salto, ir_a_label, nuevo_contexto, llamada, llamar_sin_retorno, volver_a, volver,
  cerrar_contexto, finalizar, recreate_variable_dictionary,
}
use personal_copy_tp.Cpu.Primitivas.Llamadas.Pila.{
  EnSegmento, memoria, con_bytes, tope, stack_push-hecho, stack_pop-hecho,
}
use personal_copy_tp.Cpu.Primitivas.Llamadas.Diccionario.{
  variables_en, recreate_variable_dictionary_lem,
}

-- The end of the context: the place of the next variable.
abbrev pub borde : Cpu → Segmento → ℕ
borde c s = tope c s + (pila c).context_size * 5

abbrev pub con_contexto : Cpu → ℕ → Cpu
con_contexto c n = con_pila c (record (pila c) { context_size = n })

-- The stack pointer and then the PC stand behind the context.
abbrev pub marcado : Cpu → Segmento → Cpu
marcado c s =
    con_contexto
      (con_bytes (con_bytes c (borde c s) (encode_int (pila c).stack_pointer)) (borde c s + 4)
        (encode_int c.current_pcb.program_counter))
      ((pila c).context_size + 2)

module _ (c : Cpu) (s : Segmento) (en : EnSegmento c s) where
  pub change_context_common_push-hecho :
      (pila c).stack_pointer + (pila c).context_size * 5 + 8 ≤ (pila c).base + s.tamano_segmento
      → change_context_common_push c ≡ vale (marcado c s) tt
  unfolding change_context_common_push encode_int
  change_context_common_push-hecho fits =
      let sp = (pila c).stack_pointer in
      let n = (pila c).context_size in
      let d = con_contexto (con_bytes c (borde c s) (encode_int sp)) (n + 1) in
      let en' : EnSegmento d s = record {
        hallado = en.hallado;
        tamano_int = en.tamano_int;
        direccionable = en.direccionable;
        base_int = en.base_int;
        base_le = en.base_le;
      } in
      let rest = λ (x : Efecto (Unit {0})). x >>= λ d _.
      stack_push d (encode_int d.current_pcb.program_counter) 4
        (int_sub (stack_offset_from_context (pila d)) 1) texto_desborde in
      let at : stack_offset_from_context (pila c) ≡ n * 5 = omega (arith, en.base_int) in
      let at' : int_sub (stack_offset_from_context (pila d)) 1 ≡ n * 5 + 4 =
        omega (arith, en.base_int) in
      let one : int_add n 1 ≡ n + 1 = omega (arith, en.base_int) in
      let two : int_add (n + 1) 1 ≡ n + 2 = omega (arith, en.base_int) in
      let place : tope d s + (n * 5 + 4) ≡ borde c s + 4 = omega arith in
      let first =
        stack_push-hecho c s en (encode_int sp) (n * 5) texto_desborde (omega arith)
          (omega (arith, fits)) in
      let second =
        stack_push-hecho d s en' (encode_int c.current_pcb.program_counter) (n * 5 + 4)
          texto_desborde (omega arith) (omega (arith, fits)) in
      ap (λ o. rest (stack_push c (encode_int sp) 4 o texto_desborde)) at
      ∙ ap rest
          (first ∙ ap (λ k. vale (con_contexto (con_bytes c (borde c s) (encode_int sp)) k) tt) one)
      ∙ ap (λ o. stack_push d (encode_int c.current_pcb.program_counter) 4 o texto_desborde) at'
      ∙ second
      ∙ ap
          (λ k.
            vale
              (con_contexto
                (con_bytes d (tope d s + (n * 5 + 4)) (encode_int c.current_pcb.program_counter)) k)
              tt)
          two
      ∙ ap
          (λ q.
            vale (con_contexto (con_bytes d q (encode_int c.current_pcb.program_counter)) (n + 2))
              tt)
          place

module _ (so : StringOps) (buscar : List ℕ → List ℕ → ℕ → ℕ) where
  -- The context of the function that is called.
  abbrev pub llamado : Cpu → Segmento → List ℕ → Cpu
  llamado c s nombre =
      record (con_pc
        (con_pila (marcado c s) (record (pila c) {
          stack_pointer = (pila c).stack_pointer + (pila c).context_size * 5 + 8;
          context_size = 0;
        }))
        (buscar_etiqueta so buscar c nombre)) { variables = [] }

  pub llamar_sin_retorno_lem :
      (c : Cpu) (s : Segmento) (etiqueta : List ℕ) {nombre : List ℕ}
      → EnSegmento c s
      → c.estado ≡ normal
      → (pila c).stack_pointer + (pila c).context_size * 5 + 8 ≤ (pila c).base + s.tamano_segmento
      → remove_new_line so etiqueta ≡ some nombre
      → llamar_sin_retorno so buscar c etiqueta ≡ vale (llamado c s nombre) tt
  unfolding llamar_sin_retorno nuevo_contexto ir_a_label
  llamar_sin_retorno_lem c s etiqueta {nombre} en e fits name =
      let sp = (pila c).stack_pointer in
      let n = (pila c).context_size in
      let m = marcado c s in
      let q : int_add sp (int_sub (stack_offset_from_context (pila m)) 2) ≡ sp + n * 5 + 8 =
        omega (arith, en.base_int) in
      let limpia = λ (x : Efecto (Unit {0})). x >>= λ d _. vale (record d { variables = [] }) tt in
      let cambiada =
        λ (k : ℕ). con_pila m (record (pila m) { stack_pointer = k; context_size = 0 }) in
      ap (λ x. si_normal x c tt (llamada so buscar c etiqueta)) e
      ∙ ap (λ (x : Efecto (Unit {0})). x >>= λ d _. nuevo_contexto so buscar d etiqueta 2)
          (change_context_common_push-hecho c s en fits)
      ∙ ap
          (λ x. limpia (
            si_normal x (stack_change_context m 2) tt
              (salto so buscar (stack_change_context m 2) (remove_new_line so etiqueta))))
          e
      ∙ ap (λ x. limpia (salto so buscar (stack_change_context m 2) x)) name
      ∙ ap (λ k. limpia (salto so buscar (cambiada k) (some nombre))) q

-- What `finalizar` leaves: the context of the caller.
abbrev pub devuelto : Cpu → ℕ → ℕ → ℕ → List (ℕ × ℕ) → Cpu
devuelto d pc anterior n variables =
    record (con_pc (con_pila d (record (pila d) { stack_pointer = anterior; context_size = n }))
      pc) { variables = variables }

-- `finalizar` where the stack pointer of the caller, with a context of `n`, and its PC stand below the
-- stack pointer.
pub finalizar_lem :
    (d : Cpu) (s : Segmento) (pc anterior n : ℕ)
    → EnSegmento d s
    → d.estado ≡ normal
    → (pila d).base ≤ anterior
    → anterior + n * 5 + 8 ≡ (pila d).stack_pointer
    → (pila d).stack_pointer ≤ (pila d).base + s.tamano_segmento
    → pc < 2 ^ 32
    → read_bytes (memoria d) (tope d s - 4) 4 ≡ encode_int pc
    → read_bytes (memoria d) (tope d s - 8) 4 ≡ encode_int anterior
    → finalizar d
      ≡ vale
          (devuelto d pc anterior n
            (variables_en (memoria d) (s.direccion_real + (anterior - (pila d).base)) anterior n))
          tt
unfolding finalizar volver
finalizar_lem d s pc anterior n en e low at high small saved_pc saved_sp =
    let sp = (pila d).stack_pointer in
    let apart : ((pila d).base == sp) ≡ false = ground arith in
    let size : (sp + (2 ^ 64 - 8) + 2 ^ 64 - anterior) % 2 ^ 64 / 5 % int_mod ≡ n =
      omega (arith, en.base_int) in
    let first =
      stack_pop-hecho d s en 4 4 (omega arith) (omega arith) (omega arith) (omega arith) high
      ∙ ap (vale d) saved_pc in
    let second =
      stack_pop-hecho d s en 8 4 (omega arith) (omega arith) (omega arith) (omega arith) high
      ∙ ap (vale d) saved_sp in
    let seguir = λ (e : Cpu) (bytes : List ℕ) (anterior : List ℕ).
      volver_a e (decode_int bytes) (decode_int anterior) in
    let e' : Cpu =
      con_pc (con_pila d (record (pila d) { stack_pointer = anterior; context_size = n })) pc in
    let en' : EnSegmento e' s = record {
      hallado = en.hallado;
      tamano_int = en.tamano_int;
      direccionable = en.direccionable;
      base_int = en.base_int;
      base_le = low;
    } in
    ap (λ x. si_normal x d tt (cerrar_contexto d)) e
    ∙ rw apart refl
    ∙ ap
        (λ (x : Efecto (List ℕ)).
          x >>= λ f bytes. stack_pop f (int_sub 0 8) 4 >>= λ g anterior. seguir g bytes anterior)
        first
    ∙ ap (λ (x : Efecto (List ℕ)). x >>= λ g anterior. seguir g (encode_int pc) anterior) second
    ∙ ap (λ o. volver_a d o (decode_int (encode_int anterior))) (value-back pc small)
    ∙ ap (volver_a d (some pc)) (value-back anterior (omega (arith, en.base_int)))
    ∙ ap
        (λ k.
          recreate_variable_dictionary (
            con_pila (con_pc d pc)
              (record (pila d) { stack_pointer = anterior; context_size = k })))
        size
    ∙ recreate_variable_dictionary_lem e' s en' (omega (arith, at, high))
