-- ===== src/Cpu/Primitivas/Llamadas.antt =====
-- The calls of functions in proyectoCPU/primitivas.c: what `llamarSinRetorno` and `llamarConRetorno` put
-- on the stack and `finalizar` and `retornar` take off it, and the dictionary of variables that
-- common_execution.c reads back out of the stack.
pub mod Pila
pub mod Diccionario
pub mod Regreso
pub mod Contexto
pub mod Definiciones
pub mod Retorno
pub mod Resultado
pub mod Fin
mod Pruebas
use personal_copy_tp.Common.{
  ℕ, zero, suc, ◌+◌, ◌-◌, ◌*◌, ◌/◌, ◌%◌, ◌^◌, ◌==◌, ◌||◌, Bool, false, List, [], ◌∷◌, Option, none,
  some, if◌then◌else◌, encode_int, decode_int, int_add, int_sub, int_mod, minus_one, get_elem?,
}
use personal_copy_tp.Commons.Strings.{StringOps}
use personal_copy_tp.Sockets.{Paquete}
use personal_copy_tp.Umv.Servidor.{cada_cpu, umv_mensaje_cpu_leer}
use personal_copy_tp.Cpu.Paquetes.{paquete_leer_umv}
use personal_copy_tp.Cpu.Primitivas.Textos.{remove_new_line}
use personal_copy_tp.Cpu.Primitivas.{
  Cpu, normal, end_process, Efecto, vale, sale, falla, ◌>>=◌, pila, con_pila, si_normal,
  enviar_y_esperar, recibir_respuesta, stack_push, stack_offset_from_context,
  umv_segmentation_fault, change_state, cerrar_proceso, Estado, ejecutar_si_hubo_segmentation_fault,
  ejecutar_si_hubo_stack_overflow, asignar, valor_de,
}

-- The messages, with their final zero: "STACK OVERFLOW" and "SEGMENTATION FAULT".
abbrev pub texto_desborde : List ℕ
texto_desborde = 83 ∷ 84 ∷ 65 ∷ 67 ∷ 75 ∷ 32 ∷ 79 ∷ 86 ∷ 69 ∷ 82 ∷ 70 ∷ 76 ∷ 79 ∷ 87 ∷ 0 ∷ []

abbrev pub texto_segmento : List ℕ
texto_segmento =
    83 ∷ 69 ∷ 71 ∷ 77 ∷ 69 ∷ 78 ∷ 84 ∷ 65 ∷ 84 ∷ 73 ∷ 79 ∷ 78 ∷ 32 ∷ 70 ∷ 65 ∷ 85 ∷ 76 ∷ 84 ∷ 0 ∷ []

abbrev pub con_pc : Cpu → ℕ → Cpu
con_pc c pc = record c { current_pcb = record (c.current_pcb) { program_counter = pc } }

pub stack_pop : Cpu → ℕ → ℕ → Efecto (List ℕ)
stack_pop c offset tamanio =
    let s = pila c in
    enviar_y_esperar c
      (paquete_leer_umv s.base (int_add (int_sub s.stack_pointer s.base) offset) tamanio)
      umv_segmentation_fault (λ d. ejecutar_si_hubo_segmentation_fault d texto_segmento)
    >>= λ d r. vale d r.datos

abbrev pub stack_change_context : Cpu → ℕ → Cpu
stack_change_context c extra =
    let s = pila c in
    con_pila c (record s {
      stack_pointer = int_add s.stack_pointer (int_sub (stack_offset_from_context s) extra);
      context_size = 0;
    })

-- The size is computed in 64 bits, as `sizeof` is.
abbrev pub stack_reset_context : Cpu → ℕ → Cpu
stack_reset_context c anterior =
    let s = pila c in
    con_pila c (record s {
      context_size = (s.stack_pointer + (2 ^ 64 - 8) + 2 ^ 64 - anterior) % 2 ^ 64 / 5 % int_mod;
      stack_pointer = anterior;
    })

-- `currentPCB` and `stack` are the same stack.
pub change_context_common_push : Cpu → Efecto (Unit {0})
change_context_common_push c =
    stack_push c (encode_int (pila c).stack_pointer) 4 (stack_offset_from_context (pila c))
      texto_desborde
    >>= λ d _.
        stack_push d (encode_int d.current_pcb.program_counter) 4
          (int_sub (stack_offset_from_context (pila d)) 1) texto_desborde

-- One read of the memory server, for a caller that uses the answer: where there is none it uses a null
-- pointer.
unfoldable pub solicitar_algo_umv : Cpu → ℕ → ℕ → ℕ → Efecto Paquete
solicitar_algo_umv c base offset tamanio = elim (paquete_leer_umv base offset tamanio) [
  | none ↦ falla
  | some p ↦ recibir_respuesta c (cada_cpu c.hilo p) >>= λ d r.
      if r.codigo_operacion == umv_mensaje_cpu_leer
      then vale d r
      else (ejecutar_si_hubo_segmentation_fault d texto_segmento >>= λ e _. falla)
]

-- Whether a name is among those given.
pub incluye : ℕ → List ℕ → Bool
incluye nombre [] = false
incluye nombre (x ∷ xs) = nombre == x || incluye nombre xs

-- `imprimirDiccionario` reads the variable at `direccion`, to print it.
unfoldable pub imprimir_variable : Cpu → ℕ → Efecto (Unit {0})
imprimir_variable c direccion =
    solicitar_algo_umv c (pila c).base (int_sub (int_add direccion 1) (pila c).base) 4 >>= λ d r.
    valor_de d (decode_int r.datos) >>= λ e _. vale e tt

-- Of the places put for a name the dictionary has the last.
pub vigentes : List ℕ → List (ℕ × ℕ) → List ℕ
vigentes vistos [] = []
vigentes vistos ((nombre, direccion) ∷ xs) =
    let resto = vigentes (nombre ∷ vistos) xs in
    if incluye nombre vistos then resto else direccion ∷ resto

-- `dictionary_iterator` over the variables; in which order it goes does not show, since a read that is
-- refused ends in the use of a null pointer.
pub imprimir_variables : List ℕ → Cpu → Efecto (Unit {0})
imprimir_variables [] c = vale c tt
imprimir_variables (direccion ∷ xs) c =
    imprimir_variable c direccion >>= λ d _. imprimir_variables xs d

-- `terminaFinQuantum` and `terminaFinishedProcess` print the variables first.
abbrev pub terminar_en : Estado → Cpu → List ℕ → Efecto (Unit {0})
terminar_en normal c extra =
    imprimir_variables (vigentes [] c.variables) c >>= λ d _. cerrar_proceso d extra
terminar_en end_process c extra =
    imprimir_variables (vigentes [] c.variables) c >>= λ d _. cerrar_proceso d extra
terminar_en _ c extra = cerrar_proceso c extra

unfoldable pub terminar_proceso : Cpu → List ℕ → Efecto (Unit {0})
terminar_proceso c extra = terminar_en c.estado c extra

-- The loop of `llenar_diccionario` with `quedan` rounds left; `none` where it reads past the answer.
pub llenar_desde : ℕ → List ℕ → ℕ → ℕ → List (ℕ × ℕ) → Option (List (ℕ × ℕ))
llenar_desde sp datos zero aux variables = some variables
llenar_desde sp datos (suc quedan) aux variables = elim (get_elem? datos (aux * 5 % int_mod)) [
  | none ↦ none
  | some nombre ↦
      llenar_desde sp datos quedan (aux + 1) ((nombre, int_add sp (aux * 5 % int_mod)) ∷ variables)
]

pub llenar_diccionario : Cpu → List ℕ → Efecto (Unit {0})
llenar_diccionario c datos =
    elim (llenar_desde (pila c).stack_pointer datos (pila c).context_size 0 c.variables) [
      | none ↦ falla
      | some variables ↦ vale (record c { variables = variables }) tt
    ]

pub recreate_variable_dictionary : Cpu → Efecto (Unit {0})
recreate_variable_dictionary c =
    let s = pila c in
    solicitar_algo_umv (record c { variables = [] }) s.base (int_sub s.stack_pointer s.base)
      (stack_offset_from_context s)
    >>= λ d r. llenar_diccionario d r.datos

-- The PC and the stack pointer are read out of the two answers.
abbrev pub volver_a : Cpu → Option ℕ → Option ℕ → Efecto (Unit {0})
volver_a c none anterior = falla
volver_a c (some pc) none = falla
volver_a c (some pc) (some anterior) =
    recreate_variable_dictionary (stack_reset_context (con_pc c pc) anterior)

-- The branch of `finalizar` for a context that was called.
pub volver : Cpu → Efecto (Unit {0})
volver c = stack_pop c (int_sub 0 4) 4 >>= λ d pc.
    stack_pop d (int_sub 0 8) 4 >>= λ e anterior. volver_a e (decode_int pc) (decode_int anterior)

abbrev pub cerrar_contexto : Cpu → Efecto (Unit {0})
cerrar_contexto c =
    if (pila c).base == (pila c).stack_pointer
    then terminar_proceso (record c { estado = change_state c.estado end_process }) []
    else volver c

pub finalizar : Cpu → Efecto (Unit {0})
finalizar c = si_normal c.estado c tt (cerrar_contexto c)

abbrev pub retorno : Cpu → ℕ → Efecto (Unit {0})
retorno c valor = stack_pop c (int_sub 0 4) 4 >>= λ d bytes.
    valor_de d (decode_int bytes) >>= λ e direccion.
    asignar e direccion valor texto_desborde >>= λ f _.
    finalizar (con_pila f (record (pila f) { stack_pointer = int_sub (pila f).stack_pointer 4 }))

pub retornar : Cpu → ℕ → Efecto (Unit {0})
retornar c valor = si_normal c.estado c tt (retorno c valor)

abbrev pub buscar_variable : ℕ → List (ℕ × ℕ) → ℕ
buscar_variable nombre [] = minus_one
buscar_variable nombre ((n, posicion) ∷ resto) =
    if n == nombre then int_add posicion 1 else buscar_variable nombre resto

pub obtener_posicion_variable : Cpu → ℕ → Efecto ℕ
obtener_posicion_variable c nombre =
    si_normal c.estado c minus_one (vale c (buscar_variable nombre c.variables))

-- `buscar` is `metadata_buscar_etiqueta` of the parser, which the repository only calls.
module _ (so : StringOps) (buscar : List ℕ → List ℕ → ℕ → ℕ) where
  abbrev pub buscar_etiqueta : Cpu → List ℕ → ℕ
  buscar_etiqueta c etiqueta =
      int_sub (buscar etiqueta c.diccionario_etiquetas c.current_pcb.tamanio_indice_etiquetas) 1

  abbrev pub salto : Cpu → Option (List ℕ) → Efecto (Unit {0})
  salto c none = falla
  salto c (some etiqueta) = vale (con_pc c (buscar_etiqueta c etiqueta)) tt

  pub ir_a_label : Cpu → List ℕ → Efecto (Unit {0})
  ir_a_label c etiqueta = si_normal c.estado c tt (salto c (remove_new_line so etiqueta))

  pub nuevo_contexto : Cpu → List ℕ → ℕ → Efecto (Unit {0})
  nuevo_contexto c etiqueta extra = ir_a_label (stack_change_context c extra) etiqueta >>= λ d _.
      vale (record d { variables = [] }) tt

  abbrev pub llamada : Cpu → List ℕ → Efecto (Unit {0})
  llamada c etiqueta = change_context_common_push c >>= λ d _. nuevo_contexto d etiqueta 2

  pub llamar_sin_retorno : Cpu → List ℕ → Efecto (Unit {0})
  llamar_sin_retorno c etiqueta = si_normal c.estado c tt (llamada c etiqueta)

  abbrev pub llamada_con_retorno : Cpu → List ℕ → ℕ → Efecto (Unit {0})
  llamada_con_retorno c etiqueta donde = change_context_common_push c >>= λ d _.
      stack_push d (encode_int donde) 4 (int_sub (stack_offset_from_context (pila d)) 2)
        texto_desborde
      >>= λ e _. nuevo_contexto e etiqueta 3

  pub llamar_con_retorno : Cpu → List ℕ → ℕ → Efecto (Unit {0})
  llamar_con_retorno c etiqueta donde =
      si_normal c.estado c tt (llamada_con_retorno c etiqueta donde)
