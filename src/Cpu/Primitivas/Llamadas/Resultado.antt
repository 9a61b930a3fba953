-- ===== src/Cpu/Primitivas/Llamadas/Resultado.antt =====
-- A whole call with a result in proyectoCPU/primitivas.c: the result stands in the variable of the caller
-- for which `llamarConRetorno` asked.
use personal_copy_tp.Common.{
  ℕ, ◌+◌, ◌-◌, ◌*◌, ◌^◌, ◌<◌, ◌≤◌, ◌≡◌, ap, sym, ◌∙◌, subst, inl, inr, some, List, arith,
  read_bytes, write_bytes, read-write_bytes, read-write_bytes-Apart, write_bytes_outside,
  read_bytes_cong, encode_int, decode_int, Memory,
}
use personal_copy_tp.Commons.Strings.{StringOps}
use personal_copy_tp.Umv.Estado.{Segmento}
use personal_copy_tp.Cpu.Primitivas.Textos.{remove_new_line}
use personal_copy_tp.Cpu.Primitivas.{Cpu, normal, vale, pila, desreferenciar, valor_de}
use personal_copy_tp.Cpu.Primitivas.Variables.{value-back}
use personal_copy_tp.Cpu.Primitivas.Llamadas.{llamar_con_retorno, retornar}
use personal_copy_tp.Cpu.Primitivas.Llamadas.Pila.{EnSegmento, memoria, tope}
use personal_copy_tp.Cpu.Primitivas.Llamadas.Diccionario.{variables_en, variables_en_cong}
use personal_copy_tp.Cpu.Primitivas.Llamadas.Regreso.{borde, devuelto}
use personal_copy_tp.Cpu.Primitivas.Llamadas.Contexto.{
  Coherente, Conserva, tras_marcas, marca-pc, marca-sp, marcas-debajo,
}
use personal_copy_tp.Cpu.Primitivas.Llamadas.Definiciones.{desreferenciar_lem}
use personal_copy_tp.Cpu.Primitivas.Llamadas.Retorno.{
  llamado_con_retorno, llamar_con_retorno_lem, con_resultado, retornar_lem,
}

-- The three words that the call leaves, of which the last is the place for the result.
module _ (m : Memory) (b sp pc donde : ℕ) where
  abbrev con_lugar : Memory
  con_lugar = write_bytes (tras_marcas m b sp pc) (b + 8) (encode_int donde)

  lugar-donde : read_bytes con_lugar (b + 8) 4 ≡ encode_int donde
  unfolding encode_int
  lugar-donde = read-write_bytes (tras_marcas m b sp pc) (b + 8) (encode_int donde)

  lugar-antes :
      (q : ℕ) → q + 4 ≤ b + 8 → read_bytes con_lugar q 4 ≡ read_bytes (tras_marcas m b sp pc) q 4
  lugar-antes q h =
      read-write_bytes-Apart (tras_marcas m b sp pc) (b + 8) (encode_int donde) q 4 (inr h)

  lugar-debajo : (q : ℕ) → q < b → con_lugar q ≡ m q
  lugar-debajo q h =
      write_bytes_outside (tras_marcas m b sp pc) (b + 8) (encode_int donde) q (inl (omega arith))
      ∙ marcas-debajo m b sp pc q h

-- The place of the variable `i` of the context.
abbrev pub lugar_de : Cpu → ℕ → ℕ
lugar_de c i = (pila c).stack_pointer + i * 5 + 1

-- What `retornar` leaves to the caller.
abbrev pub con_valor : Cpu → Cpu → Segmento → ℕ → ℕ → Cpu
con_valor c d s i valor =
    devuelto (con_resultado d s (lugar_de c i) valor) c.current_pcb.program_counter
      (pila c).stack_pointer (pila c).context_size c.variables

module _ (so : StringOps) (buscar : List ℕ → List ℕ → ℕ → ℕ) (c : Cpu) (s : Segmento) (i valor : ℕ)
    (k : Coherente c s) (small : c.current_pcb.program_counter < 2 ^ 32) (value : valor < 2 ^ 32)
    (h : i < (pila c).context_size)
    (room : (pila c).stack_pointer + (pila c).context_size * 5 + 12
      ≤ (pila c).base + s.tamano_segmento) where
  retorno-llamado :
      (nombre : List ℕ) (d : Cpu)
      → Conserva (llamado_con_retorno so buscar c s nombre (lugar_de c i)) d s
      → retornar d valor ≡ vale (con_valor c d s i valor) tt
  unfolding encode_int
  retorno-llamado nombre d keep =
      let l = llamado_con_retorno so buscar c s nombre (lugar_de c i) in
      let sp = (pila c).stack_pointer in
      let n = (pila c).context_size in
      let pc = c.current_pcb.program_counter in
      let b = borde c s in
      let m = memoria c in
      let donde = lugar_de c i in
      let low = k.en.base_le in
      let above : tope l s ≡ b + 12 = omega (arith, low) in
      let same : tope d s ≡ b + 12 = omega (arith, low, keep.misma_base, keep.mismo_tope) in
      let en' : EnSegmento d s = record {
        hallado = keep.hallado;
        tamano_int = k.en.tamano_int;
        direccionable = k.en.direccionable;
        base_int = omega (arith, keep.misma_base, k.en.base_int);
        base_le = omega (arith, keep.misma_base, keep.mismo_tope, low);
      } in
      let lee = λ (q : ℕ) (below : q + 4 ≤ b + 12).
        read_bytes_cong (memoria d) (memoria l) q 4
          (λ r _ u. keep.debajo r (omega (arith, above))) in
      let saved : read_bytes (memoria d) (tope d s - 4) 4 ≡ encode_int donde =
        ap (λ q. read_bytes (memoria d) q 4) {y = b + 8} (omega (arith, same))
        ∙ lee (b + 8) (omega arith)
        ∙ lugar-donde m b sp pc donde in
      let saved_pc : read_bytes (memoria d) (tope d s - 8) 4 ≡ encode_int pc =
        ap (λ q. read_bytes (memoria d) q 4) {y = b + 4} (omega (arith, same))
        ∙ lee (b + 4) (omega arith)
        ∙ lugar-antes m b sp pc donde (b + 4) (omega arith)
        ∙ marca-pc m b sp pc in
      let saved_sp : read_bytes (memoria d) (tope d s - 12) 4 ≡ encode_int sp =
        ap (λ q. read_bytes (memoria d) q 4) {y = b} (omega (arith, same))
        ∙ lee b (omega arith)
        ∙ lugar-antes m b sp pc donde b (omega arith)
        ∙ marca-sp m b sp pc in
      let f = con_resultado d s donde valor in
      let place : s.direccion_real + (sp - (pila d).base) ≡ tope c s =
        omega (arith, keep.misma_base) in
      let names : variables_en (memoria f) (tope c s) sp n ≡ c.variables =
        variables_en_cong (memoria f) m (tope c s) sp n (λ j u.
          write_bytes_outside (memoria d) (s.direccion_real + (donde - (pila d).base))
            (encode_int valor) (tope c s + j * 5) (omega (arith, keep.misma_base, low))
          ∙ keep.debajo (tope c s + j * 5) (omega (arith, above))
          ∙ lugar-debajo m b sp pc donde (tope c s + j * 5) (omega arith))
        ∙ sym k.diccionario in
      retornar_lem d s donde pc sp n valor en' keep.sigue (omega (arith, keep.misma_base, low))
        (sym keep.mismo_tope) (omega (arith, keep.misma_base, keep.mismo_tope, room))
        (omega (arith, keep.misma_base, low)) (omega arith) small value saved saved_pc saved_sp
      ∙ ap (λ q. vale (devuelto f pc sp n (variables_en (memoria f) q sp n)) tt) place
      ∙ ap (λ v. vale (devuelto f pc sp n v) tt) names

  valor-hallado :
      (d : Cpu) (texto : List ℕ)
      → d.estado ≡ normal
      → EnSegmento (con_valor c d s i valor) s
      → (pila d).base ≡ (pila c).base
      → desreferenciar (con_valor c d s i valor) (lugar_de c i) texto
        ≡ vale (con_valor c d s i valor) valor
  unfolding encode_int
  valor-hallado d texto e en' base =
      let f = con_valor c d s i valor in
      let place : tope f s + i * 5 + 1 ≡ s.direccion_real + (lugar_de c i - (pila d).base) =
        omega (arith, base, k.en.base_le) in
      desreferenciar_lem f s i texto en' e (omega (arith, base, room))
      ∙ ap (λ q. valor_de f (decode_int (read_bytes (memoria f) q 4))) place
      ∙ ap (λ bytes. valor_de f (decode_int bytes))
          (read-write_bytes (memoria d) (s.direccion_real + (lugar_de c i - (pila d).base))
            (encode_int valor))
      ∙ ap (valor_de f) (value-back valor value)

-- A function called by llamarConRetorno for a variable of its caller, that leaves the stack below its stack
-- pointer alone, gives back, by retornar, the program counter, the stack pointer, the size of the context
-- and the dictionary of the caller, and the variable then has the value returned, if the caller's
-- dictionary agreed with the stack and there was room for the three words.
pub llamar_con_retorno-retornar :
    (so : StringOps) (buscar : List ℕ → List ℕ → ℕ → ℕ) (c : Cpu) (s : Segmento) (i valor : ℕ)
    (etiqueta texto : List ℕ) {nombre : List ℕ} {l d : Cpu}
    → Coherente c s
    → c.estado ≡ normal
    → c.current_pcb.program_counter < 2 ^ 32
    → valor < 2 ^ 32
    → i < (pila c).context_size
    → (pila c).stack_pointer + (pila c).context_size * 5 + 12 ≤ (pila c).base + s.tamano_segmento
    → remove_new_line so etiqueta ≡ some nombre
    → llamar_con_retorno so buscar c etiqueta (lugar_de c i) ≡ vale l tt
    → Conserva l d s
    → (retornar d valor ≡ vale (con_valor c d s i valor) tt)
      × (desreferenciar (con_valor c d s i valor) (lugar_de c i) texto
          ≡ vale (con_valor c d s i valor) valor)
llamar_con_retorno-retornar so buscar c s i valor etiqueta texto {nombre} {l} {d} k e small value h
      room name called keep =
    let same : vale (llamado_con_retorno so buscar c s nombre (lugar_de c i)) tt ≡ vale l tt =
      sym (llamar_con_retorno_lem so buscar c s etiqueta (lugar_de c i) k.en e room name)
      ∙ called in
    let eq : llamado_con_retorno so buscar c s nombre (lugar_de c i) ≡ l = cc in
    let keep' = subst (λ x. Conserva x d s) (sym eq) keep in
    let en' : EnSegmento (con_valor c d s i valor) s = record {
      hallado = keep.hallado;
      tamano_int = k.en.tamano_int;
      direccionable = k.en.direccionable;
      base_int = omega (arith, keep'.misma_base, k.en.base_int);
      base_le = omega (arith, keep'.misma_base, k.en.base_le);
    } in
    (
      retorno-llamado so buscar c s i valor k small value h room nombre d keep',
      valor-hallado so buscar c s i valor k small value h room d texto keep.sigue en'
          keep'.misma_base,
    )
