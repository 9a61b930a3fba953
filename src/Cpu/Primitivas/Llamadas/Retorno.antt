-- ===== src/Cpu/Primitivas/Llamadas/Retorno.antt =====
-- A call with a result in proyectoCPU/primitivas.c: from `llamarConRetorno` to `retornar`.
use personal_copy_tp.Common.{
  ℕ, ◌+◌, ◌-◌, ◌*◌, ◌^◌, ◌<◌, ◌≤◌, ◌≡◌, ap, ◌∙◌, inl, some, List, [], arith, int_add, int_sub,
  read_bytes, write_bytes, read-write_bytes-Apart, encode_int, decode_int,
}
use personal_copy_tp.Commons.Strings.{StringOps}
use personal_copy_tp.Umv.Estado.{Segmento}
use personal_copy_tp.Umv.Acceso.{hecho}
use personal_copy_tp.Cpu.Primitivas.Textos.{remove_new_line}
use personal_copy_tp.Cpu.Primitivas.{
  Cpu, Efecto, normal, vale, ◌>>=◌, pila, con_pila, si_normal, stack_push,
  stack_offset_from_context, asignar, valor_de,
}
use personal_copy_tp.Cpu.Primitivas.Variables.{value-back, asignar-desreferenciar}
use personal_copy_tp.Cpu.Primitivas.Llamadas.{
  texto_desborde, con_pc, stack_change_context, buscar_etiqueta, salto, ir_a_label, nuevo_contexto,
  llamada_con_retorno, llamar_con_retorno, finalizar, retorno, retornar,
}
use personal_copy_tp.Cpu.Primitivas.Llamadas.Pila.{
  EnSegmento, memoria, con_memoria, con_bytes, tope, stack_push-hecho, stack_pop-hecho, pegar-en,
}
use personal_copy_tp.Cpu.Primitivas.Llamadas.Diccionario.{variables_en}
use personal_copy_tp.Cpu.Primitivas.Llamadas.Regreso.{
  borde, con_contexto, marcado, change_context_common_push-hecho, devuelto, finalizar_lem,
}

-- The place for the result stands behind the stack pointer and the PC.
abbrev marcado_con_retorno : Cpu → Segmento → ℕ → Cpu
marcado_con_retorno c s donde =
    con_contexto (con_bytes (marcado c s) (borde c s + 8) (encode_int donde))
      ((pila c).context_size + 3)

module _ (so : StringOps) (buscar : List ℕ → List ℕ → ℕ → ℕ) where
  abbrev pub llamado_con_retorno : Cpu → Segmento → List ℕ → ℕ → Cpu
  llamado_con_retorno c s nombre donde =
      record (con_pc
        (con_pila (marcado_con_retorno c s donde) (record (pila c) {
          stack_pointer = (pila c).stack_pointer + (pila c).context_size * 5 + 12;
          context_size = 0;
        }))
        (buscar_etiqueta so buscar c nombre)) { variables = [] }

  pub llamar_con_retorno_lem :
      (c : Cpu) (s : Segmento) (etiqueta : List ℕ) (donde : ℕ) {nombre : List ℕ}
      → EnSegmento c s
      → c.estado ≡ normal
      → (pila c).stack_pointer + (pila c).context_size * 5 + 12 ≤ (pila c).base + s.tamano_segmento
      → remove_new_line so etiqueta ≡ some nombre
      → llamar_con_retorno so buscar c etiqueta donde
        ≡ vale (llamado_con_retorno c s nombre donde) tt
  unfolding llamar_con_retorno nuevo_contexto ir_a_label encode_int
  llamar_con_retorno_lem c s etiqueta donde {nombre} en e fits name =
      let sp = (pila c).stack_pointer in
      let n = (pila c).context_size in
      let m = marcado c s in
      let m' = marcado_con_retorno c s donde in
      let en' : EnSegmento m s = record {
        hallado = en.hallado;
        tamano_int = en.tamano_int;
        direccionable = en.direccionable;
        base_int = en.base_int;
        base_le = en.base_le;
      } in
      let at : int_sub (stack_offset_from_context (pila m)) 2 ≡ n * 5 + 8 =
        omega (arith, en.base_int) in
      let three : int_add (n + 2) 1 ≡ n + 3 = omega (arith, en.base_int) in
      let place : tope m s + (n * 5 + 8) ≡ borde c s + 8 = omega arith in
      let q : int_add sp (int_sub (stack_offset_from_context (pila m')) 3) ≡ sp + n * 5 + 12 =
        omega (arith, en.base_int) in
      let limpia = λ (x : Efecto (Unit {0})). x >>= λ d _. vale (record d { variables = [] }) tt in
      let entra = λ (x : Efecto (Unit {0})). x >>= λ d _. nuevo_contexto so buscar d etiqueta 3 in
      let cambiada =
        λ (k : ℕ). con_pila m' (record (pila m') { stack_pointer = k; context_size = 0 }) in
      ap (λ x. si_normal x c tt (llamada_con_retorno so buscar c etiqueta donde)) e
      ∙ ap
          (λ (x : Efecto (Unit {0})). x >>= λ d _. entra (
            stack_push d (encode_int donde) 4 (int_sub (stack_offset_from_context (pila d)) 2)
              texto_desborde))
          (change_context_common_push-hecho c s en (omega (arith, fits)))
      ∙ ap (λ o. entra (stack_push m (encode_int donde) 4 o texto_desborde)) at
      ∙ ap entra (
          stack_push-hecho m s en' (encode_int donde) (n * 5 + 8) texto_desborde (omega arith)
            (omega (arith, fits)))
      ∙ ap
          (λ k.
            entra
              (vale (con_contexto (con_bytes m (tope m s + (n * 5 + 8)) (encode_int donde)) k) tt))
          three
      ∙ ap (λ r. entra (vale (con_contexto (con_bytes m r (encode_int donde)) (n + 3)) tt)) place
      ∙ ap
          (λ x. limpia (
            si_normal x (stack_change_context m' 3) tt
              (salto so buscar (stack_change_context m' 3) (remove_new_line so etiqueta))))
          e
      ∙ ap (λ x. limpia (salto so buscar (stack_change_context m' 3) x)) name
      ∙ ap (λ k. limpia (salto so buscar (cambiada k) (some nombre))) q

-- The result at its place.
abbrev pub con_resultado : Cpu → Segmento → ℕ → ℕ → Cpu
con_resultado d s donde valor =
    con_bytes d (s.direccion_real + (donde - (pila d).base)) (encode_int valor)

-- `retornar` where the place for the result, the PC and the stack pointer of the caller, with a context
-- of `n`, stand below the stack pointer, and the place lies in the stack below them.
pub retornar_lem :
    (d : Cpu) (s : Segmento) (donde pc anterior n valor : ℕ)
    → EnSegmento d s
    → d.estado ≡ normal
    → (pila d).base ≤ anterior
    → anterior + n * 5 + 12 ≡ (pila d).stack_pointer
    → (pila d).stack_pointer ≤ (pila d).base + s.tamano_segmento
    → (pila d).base ≤ donde
    → donde + 4 ≤ anterior + n * 5
    → pc < 2 ^ 32
    → valor < 2 ^ 32
    → read_bytes (memoria d) (tope d s - 4) 4 ≡ encode_int donde
    → read_bytes (memoria d) (tope d s - 8) 4 ≡ encode_int pc
    → read_bytes (memoria d) (tope d s - 12) 4 ≡ encode_int anterior
    → retornar d valor
      ≡ vale
          (devuelto (con_resultado d s donde valor) pc anterior n (
            variables_en
              (memoria (con_resultado d s donde valor))
              (s.direccion_real + (anterior - (pila d).base))
              anterior
              n))
          tt
unfolding retornar encode_int
retornar_lem d s donde pc anterior n valor en e low at high from upto small_pc small saved saved_pc
      saved_sp =
    let base = (pila d).base in
    let sp = (pila d).stack_pointer in
    let p = s.direccion_real + (donde - base) in
    let f = con_bytes d p (encode_int valor) in
    let g = con_pila f (record (pila f) { stack_pointer = sp - 4 }) in
    let pop =
      stack_pop-hecho d s en 4 4 (omega arith) (omega arith) (omega arith) (omega arith) high
      ∙ ap (vale d) saved in
    let at_base : int_sub donde base ≡ donde - base = omega (arith, en.base_int) in
    let granted =
      pegar-en d.hilo.umv base (int_sub donde base) d.hilo.pid_proceso_activo s (encode_int valor)
        en.hallado en.tamano_int en.direccionable (omega (arith, at_base))
      ∙ ap
          (λ o. hecho (
            con_memoria d.hilo.umv
              (write_bytes (memoria d) (s.direccion_real + o) (encode_int valor))))
          at_base in
    let wrote =
      (asignar-desreferenciar d donde valor texto_desborde e small (omega (arith, en.base_int))
        granted).0 in
    let en' : EnSegmento g s = record {
      hallado = en.hallado;
      tamano_int = en.tamano_int;
      direccionable = en.direccionable;
      base_int = en.base_int;
      base_le = omega arith;
    } in
    let keeps = λ (q : ℕ) (h : p + 4 ≤ q).
      read-write_bytes-Apart (memoria d) p (encode_int valor) q 4 (inl h) in
    let pc' : read_bytes (memoria g) (tope g s - 4) 4 ≡ encode_int pc =
      ap (λ q. read_bytes (memoria g) q 4) {y = tope d s - 8} (omega arith)
      ∙ keeps (tope d s - 8) (omega arith)
      ∙ saved_pc in
    let sp' : read_bytes (memoria g) (tope g s - 8) 4 ≡ encode_int anterior =
      ap (λ q. read_bytes (memoria g) q 4) {y = tope d s - 12} (omega arith)
      ∙ keeps (tope d s - 12) (omega arith)
      ∙ saved_sp in
    let cierra = λ (x : Efecto (Unit {0})). x >>= λ h _.
    finalizar (con_pila h (record (pila h) { stack_pointer = int_sub (pila h).stack_pointer 4 })) in
    ap (λ x. si_normal x d tt (retorno d valor)) e
    ∙ ap
        (λ (x : Efecto (List ℕ)). x >>= λ h bytes.
          valor_de h (decode_int bytes) >>= λ j dir. cierra (asignar j dir valor texto_desborde))
        pop
    ∙ ap (λ o. valor_de d o >>= λ j dir. cierra (asignar j dir valor texto_desborde))
        (value-back donde (omega (arith, en.base_int)))
    ∙ ap cierra wrote
    ∙ ap (λ k. finalizar (con_pila f (record (pila f) { stack_pointer = k }))) {y = sp - 4}
        (omega (arith, en.base_int))
    ∙ finalizar_lem g s pc anterior n en' e low (omega arith) (omega arith) small_pc pc' sp'
