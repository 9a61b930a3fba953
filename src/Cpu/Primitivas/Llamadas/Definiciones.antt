-- ===== src/Cpu/Primitivas/Llamadas/Definiciones.antt =====
-- `definir_variable` and `asignar` of proyectoCPU/primitivas.c keep the dictionary of variables in step
-- with the stack, and an assignment changes no other variable.
use personal_copy_tp.Common.{
  ℕ, ◌+◌, ◌-◌, ◌*◌, ◌^◌, ◌<◌, ◌≤◌, ◌≡◌, ◌≢◌, refl, ap, ap₂, sym, ◌∙◌, inl, List, [], ◌∷◌, ◌==◌,
  true, arith, int_add, int_sub, read_bytes, write_bytes, read-write_bytes-Apart,
  write_bytes_outside, encode_int, decode_int, suc, minus_one, Option, none, some, ◌⊎◌,
}
use personal_copy_tp.Sockets.Paquetes.{paquete}
use personal_copy_tp.Umv.Estado.{Segmento}
use personal_copy_tp.Umv.Acceso.{hecho}
use personal_copy_tp.Umv.Servidor.{tras_leer, umv_mensaje_cpu_leer, error_fallo_segmento}
use personal_copy_tp.Umv.Servidor.Escrituras.{cada_cpu-leer}
use personal_copy_tp.Cpu.Paquetes.{paquete_leer_umv_lem}
use personal_copy_tp.Cpu.Primitivas.{
  Cpu, Efecto, normal, vale, ◌>>=◌, pila, si_normal, stack_push, stack_offset_from_context,
  stack_last_variable_position, anotar_variable, definicion, definir_variable, asignar,
  desreferenciar, lectura_de, valor_de, ejecutar_si_hubo_segmentation_fault,
}
use personal_copy_tp.Cpu.Primitivas.Variables.{asignar-desreferenciar, enviar_y_esperar-listo}
use personal_copy_tp.Cpu.Primitivas.Llamadas.{obtener_posicion_variable, buscar_variable}
use personal_copy_tp.Cpu.Primitivas.Llamadas.Pila.{
  EnSegmento, memoria, con_bytes, tope, stack_push-hecho, pegar-en, leer-en, con_memoria,
}
use personal_copy_tp.Cpu.Primitivas.Llamadas.Diccionario.{variables_en, variables_en_cong}
use personal_copy_tp.Cpu.Primitivas.Llamadas.Regreso.{borde, con_contexto}
use personal_copy_tp.Cpu.Primitivas.Llamadas.Contexto.{Coherente}

-- The state after the definition of a variable.
abbrev definida : Cpu → Segmento → ℕ → Cpu
definida c s nombre =
    record (con_contexto (con_bytes c (borde c s) (nombre ∷ [])) ((pila c).context_size + 1)) {
      variables = (nombre, (pila c).stack_pointer + (pila c).context_size * 5) ∷ c.variables;
    }

module _ (c : Cpu) (s : Segmento) (k : Coherente c s) (e : c.estado ≡ normal) where
  definir_variable-hecho :
      (nombre : ℕ) (texto : List ℕ)
      → (pila c).stack_pointer + (pila c).context_size * 5 + 1 ≤ (pila c).base + s.tamano_segmento
      → definir_variable c nombre texto
        ≡ vale (definida c s nombre) ((pila c).stack_pointer + (pila c).context_size * 5 + 1)
  unfolding definir_variable
  definir_variable-hecho nombre texto room =
      let sp = (pila c).stack_pointer in
      let n = (pila c).context_size in
      let at : stack_offset_from_context (pila c) ≡ n * 5 = omega (arith, k.en.base_int) in
      let one : int_add n 1 ≡ n + 1 = omega (arith, k.en.base_int) in
      let d = con_contexto (con_bytes c (borde c s) (nombre ∷ [])) (n + 1) in
      let last : stack_last_variable_position (pila d) ≡ sp + n * 5 =
        omega (arith, k.en.base_int) in
      let value : int_add (sp + n * 5) 1 ≡ sp + n * 5 + 1 = omega (arith, k.en.base_int) in
      let anota = λ (x : Efecto (Unit {0})). x >>= λ f _. anotar_variable nombre f in
      ap (λ x. si_normal x c 0 (definicion c nombre texto)) e
      ∙ ap (λ o. anota (stack_push c (nombre ∷ []) 1 o texto)) at
      ∙ ap anota (
          stack_push-hecho c s k.en (nombre ∷ []) (n * 5) texto (omega arith) (omega (arith, room)))
      ∙ ap (λ j. anota (vale (con_contexto (con_bytes c (borde c s) (nombre ∷ [])) j) tt)) one
      ∙ ap (λ q. vale (record d { variables = (nombre, q) ∷ c.variables }) (int_add q 1)) last
      ∙ ap (vale (definida c s nombre)) value

  definida-Coherente :
      (nombre : ℕ)
      → (pila c).stack_pointer + (pila c).context_size * 5 + 5 ≤ (pila c).base + s.tamano_segmento
      → Coherente (definida c s nombre) s
  unfolding write_bytes
  definida-Coherente nombre room =
      let sp = (pila c).stack_pointer in
      let n = (pila c).context_size in
      let m' = memoria (definida c s nombre) in
      let hit : nombre ≡ m' (borde c s) = ground arith in
      let rest : c.variables ≡ variables_en m' (tope c s) sp n =
        k.diccionario
        ∙ variables_en_cong (memoria c) m' (tope c s) sp n (λ i h. sym (
            write_bytes_outside (memoria c) (borde c s) (nombre ∷ []) (tope c s + i * 5)
              (inl (omega arith)))) in
      let next : n + 1 ≡ suc n = omega arith in
      record {
        en = record {
          hallado = k.en.hallado;
          tamano_int = k.en.tamano_int;
          direccionable = k.en.direccionable;
          base_int = k.en.base_int;
          base_le = k.en.base_le;
        };
        dentro = omega (arith, room);
        diccionario =
            ap₂ (λ b (xs : List (ℕ × ℕ)). (b, sp + n * 5) ∷ xs) hit rest
            ∙ ap (variables_en m' (tope c s) sp) (sym next);
      }

-- Where the stack has room for one more variable, a process in the normal state whose dictionary agrees
-- with the stack defines it: the place given is the one that `obtenerPosicionVariable` then finds, the
-- context has one variable more, and the dictionary agrees with the stack again.
pub definir_variable-Coherente :
    (c : Cpu) (s : Segmento) (nombre : ℕ) (texto : List ℕ)
    → Coherente c s
    → c.estado ≡ normal
    → (pila c).stack_pointer + (pila c).context_size * 5 + 5 ≤ (pila c).base + s.tamano_segmento
    → (d : Cpu) × (posicion : ℕ) × (definir_variable c nombre texto ≡ vale d posicion)
      × (obtener_posicion_variable d nombre ≡ vale d posicion)
      × ((pila d).context_size ≡ (pila c).context_size + 1)
      × (d.estado ≡ normal)
      × Coherente d s
unfolding obtener_posicion_variable
definir_variable-Coherente c s nombre texto k e room =
    let at = (pila c).stack_pointer + (pila c).context_size * 5 in
    let d = definida c s nombre in
    let value : int_add at 1 ≡ at + 1 = omega (arith, k.en.base_int) in
    let self : (nombre == nombre) ≡ true = ground arith in
    (
      d,
      at + 1,
      definir_variable-hecho c s k e nombre texto (omega (arith, room)),
      ap (λ x. si_normal x d minus_one (vale d (buscar_variable nombre d.variables))) e
          ∙ rw (self, value),
      refl,
      e,
      definida-Coherente c s k e nombre room,
    )

-- The state after an assignment to the variable `i` of the context.
abbrev pub asignada : Cpu → Segmento → ℕ → ℕ → Cpu
asignada c s i valor = con_bytes c (tope c s + i * 5 + 1) (encode_int valor)

-- `desreferenciar` of the variable `j` is what its four bytes say.
pub desreferenciar_lem :
    (c : Cpu) (s : Segmento) (j : ℕ) (texto : List ℕ)
    → EnSegmento c s
    → c.estado ≡ normal
    → (pila c).stack_pointer + j * 5 + 5 ≤ (pila c).base + s.tamano_segmento
    → desreferenciar c ((pila c).stack_pointer + j * 5 + 1) texto
      ≡ valor_de c (decode_int (read_bytes (memoria c) (tope c s + j * 5 + 1) 4))
unfolding desreferenciar
desreferenciar_lem c s j texto en e room =
    let base = (pila c).base in
    let pos = (pila c).stack_pointer + j * 5 + 1 in
    let off = int_sub pos base in
    let at : off ≡ (pila c).stack_pointer - base + j * 5 + 1 =
      omega (arith, en.base_int, en.base_le) in
    let place : s.direccion_real + off ≡ tope c s + j * 5 + 1 = omega (arith, at) in
    let read =
      leer-en c.hilo.umv base off c.hilo.pid_proceso_activo s 4 en.hallado en.tamano_int
        en.direccionable (omega (arith, at, en.base_le, room)) in
    let answer =
      cada_cpu-leer c.hilo base off (omega (arith, en.base_int)) (omega arith) 4 [] (omega arith)
      ∙ ap (tras_leer c.hilo 4) read in
    let got =
      enviar_y_esperar-listo c _ _ c.hilo
        (paquete umv_mensaje_cpu_leer (read_bytes (memoria c) (s.direccion_real + off) 4))
        error_fallo_segmento (λ (x : Cpu). ejecutar_si_hubo_segmentation_fault x texto)
        (paquete_leer_umv_lem base off 4) answer refl in
    ap (λ x. si_normal x c 0 (lectura_de c pos texto)) e
    ∙ ap (λ (x : Efecto _). x >>= λ y r. valor_de y (decode_int r.datos)) got
    ∙ ap (λ q. valor_de c (decode_int (read_bytes (memoria c) q 4))) place

pub asignada-Coherente :
    (c : Cpu) (s : Segmento) (i valor : ℕ)
    → Coherente c s
    → i < (pila c).context_size
    → Coherente (asignada c s i valor) s
unfolding encode_int
asignada-Coherente c s i valor k h =
    let m' = memoria (asignada c s i valor) in
    record {
      en = record {
        hallado = k.en.hallado;
        tamano_int = k.en.tamano_int;
        direccionable = k.en.direccionable;
        base_int = k.en.base_int;
        base_le = k.en.base_le;
      };
      dentro = k.dentro;
      diccionario =
          k.diccionario
          ∙ variables_en_cong (memoria c) m' (tope c s) (pila c).stack_pointer (pila c).context_size
              (λ j _. sym (
                write_bytes_outside (memoria c) (tope c s + i * 5 + 1) (encode_int valor)
                  (tope c s + j * 5) (omega arith)));
    }

valor_de-vale : (c : Cpu) (o : Option ℕ) {w : ℕ} → valor_de c o ≡ vale c w → o ≡ some w
valor_de-vale c none h = cc
valor_de-vale c (some n) h = cc

-- Two variables of a context share no byte.
asignada-otra :
    (c : Cpu) (s : Segmento) (i j valor : ℕ)
    → i ≢ j
    → read_bytes (memoria (asignada c s i valor)) (tope c s + j * 5 + 1) 4
      ≡ read_bytes (memoria c) (tope c s + j * 5 + 1) 4
unfolding encode_int
asignada-otra c s i j valor other =
    read-write_bytes-Apart (memoria c) (tope c s + i * 5 + 1) (encode_int valor)
      (tope c s + j * 5 + 1) 4 (omega (arith, lt_or_gt i j other))
  where
    lt_or_gt : (i j : ℕ) → i ≢ j → (i < j) ⊎ (j < i)
    lt_or_gt i j h = grind arith

-- An assignment to a variable of the context, in the normal state and where the dictionary agrees with
-- the stack, succeeds; the variable then has the value, another variable of the context the value that it
-- had, and the dictionary is the same and still agrees with the stack.
pub asignar-Coherente :
    (c : Cpu) (s : Segmento) (i j valor : ℕ) (texto : List ℕ) {w : ℕ}
    → Coherente c s
    → c.estado ≡ normal
    → i < (pila c).context_size
    → j < (pila c).context_size
    → i ≢ j
    → valor < 2 ^ 32
    → desreferenciar c ((pila c).stack_pointer + j * 5 + 1) texto ≡ vale c w
    → (d : Cpu) × (asignar c ((pila c).stack_pointer + i * 5 + 1) valor texto ≡ vale d tt)
      × (desreferenciar d ((pila c).stack_pointer + i * 5 + 1) texto ≡ vale d valor)
      × (desreferenciar d ((pila c).stack_pointer + j * 5 + 1) texto ≡ vale d w)
      × (d.variables ≡ c.variables)
      × Coherente d s
unfolding encode_int
asignar-Coherente c s i j valor texto {w} k e hi hj other small before =
    let base = (pila c).base in
    let sp = (pila c).stack_pointer in
    let d = asignada c s i valor in
    let k' = asignada-Coherente c s i valor k hi in
    let off = int_sub (sp + i * 5 + 1) base in
    let at : off ≡ sp - base + i * 5 + 1 = omega (arith, k.en.base_int, k.en.base_le, k.dentro) in
    let place : s.direccion_real + off ≡ tope c s + i * 5 + 1 = omega (arith, at) in
    let granted =
      pegar-en c.hilo.umv base off c.hilo.pid_proceso_activo s (encode_int valor) k.en.hallado
        k.en.tamano_int k.en.direccionable (omega (arith, at, k.en.base_le, k.dentro))
      ∙ ap (λ q. hecho (con_memoria c.hilo.umv (write_bytes (memoria c) q (encode_int valor))))
          place in
    let (wrote, back) =
      asignar-desreferenciar c (sp + i * 5 + 1) valor texto e small (omega (arith, k.en.base_int))
        granted in
    let was =
      valor_de-vale c (decode_int (read_bytes (memoria c) (tope c s + j * 5 + 1) 4))
        (sym (desreferenciar_lem c s j texto k.en e (omega (arith, k.dentro))) ∙ before) in
    (
      d,
      wrote,
      back,
      desreferenciar_lem d s j texto k'.en e (omega (arith, k.dentro))
          ∙ ap (λ bytes. valor_de d (decode_int bytes)) (asignada-otra c s i j valor other)
          ∙ ap (valor_de d) was,
      refl,
      k',
    )
