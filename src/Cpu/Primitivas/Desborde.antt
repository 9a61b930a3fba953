-- ===== src/Cpu/Primitivas/Desborde.antt =====
-- A write beyond the stack segment (proyectoCPU/primitivas.c, stack.c): `asignar` sees the refusal of the
-- memory server, `stack_push` waits for another code.
use personal_copy_tp.Common.{
  ℕ, ◌^◌, ◌<◌, ◌≡◌, refl, ap, ◌∙◌, List, ◌∷◌, [], ◌++◌, Option, some, length, arith, encode_int,
  int_sub, int_add, false, true, ◌==◌,
}
use personal_copy_tp.Sockets.{Paquete}
use personal_copy_tp.Sockets.Paquetes.{paquete}
use personal_copy_tp.Umv.Acceso.{denegado, pegar_bytes}
use personal_copy_tp.Umv.Servidor.{
  listo, HiloCpu, con_umv, cada_cpu, tras_escribir, umv_mensaje_cpu_escribir, error_fallo_segmento,
  texto_sf,
}
use personal_copy_tp.Umv.Servidor.Campos.{mensaje}
use personal_copy_tp.Umv.Servidor.Escrituras.{cada_cpu-escribir}
use personal_copy_tp.Cpu.Paquetes.{paquete_escribir_umv, paquete_escribir_umv_lem}
use personal_copy_tp.Cpu.Primitivas.{
  normal, stk_overflow, Cpu, Efecto, vale, ◌>>=◌, pila, con_pila, si_normal, enviar_y_esperar,
  recibir_respuesta, asignar, asignacion, stack_push, definicion, anotar_variable,
  stack_last_variable_position, definir_variable, ejecutar_si_hubo_stack_overflow, cerrar_proceso,
  codigo_de_fin, datos_de_fin, change_state, codificar_pcb, umv_segmentation_fault,
  stack_offset_from_context,
}
use personal_copy_tp.Cpu.Primitivas.Variables.{enviar_y_esperar-listo}

-- The memory server's refusal, in answer to a write packet.
escritura-denegada :
    (h : HiloCpu) (base offset : ℕ) (bytes : List ℕ)
    → base < 2 ^ 32
    → offset < 2 ^ 32
    → length bytes < 2 ^ 31
    → pegar_bytes h.umv bytes base offset (length bytes) h.pid_proceso_activo ≡ denegado
    → (p : Paquete) × (paquete_escribir_umv base offset (length bytes) bytes ≡ some p)
      × (cada_cpu h p ≡ listo h (some (paquete error_fallo_segmento texto_sf)))
escritura-denegada h base offset bytes hb ho small refused = (
  paquete umv_mensaje_cpu_escribir (mensaje base offset (length bytes) bytes),
  paquete_escribir_umv_lem base offset bytes small,
  cada_cpu-escribir h base offset hb ho bytes (omega arith)
      ∙ ap (tras_escribir (con_umv h) h umv_mensaje_cpu_escribir) refused,
)

-- The place at which a new variable of the context is written.
abbrev pub lugar_nuevo : Cpu → ℕ
lugar_nuevo c =
    int_add (int_sub (pila c).stack_pointer (pila c).base) (stack_offset_from_context (pila c))

-- If the memory server refuses the write of a new variable, `definir_variable` goes on as if it had
-- been made: the state stays normal, the context has one variable more, and the memory is unchanged.
pub definir_variable_desborde :
    (c : Cpu) (nombre : ℕ) (texto : List ℕ)
    → c.estado ≡ normal
    → (pila c).base < 2 ^ 32
    → pegar_bytes c.hilo.umv (nombre ∷ []) (pila c).base (lugar_nuevo c) 1 c.hilo.pid_proceso_activo
      ≡ denegado
    → (d : Cpu) × (posicion : ℕ) × (definir_variable c nombre texto ≡ vale d posicion)
      × (d.estado ≡ normal)
      × (d.hilo ≡ c.hilo)
      × ((pila d).context_size ≡ int_add (pila c).context_size 1)
unfolding definir_variable stack_push
definir_variable_desborde c nombre texto e base refused =
    let (p, ep, answer) =
      escritura-denegada c.hilo (pila c).base (lugar_nuevo c) (nombre ∷ []) base (omega arith)
        (omega arith) refused in
    let sent =
      enviar_y_esperar-listo c _ p c.hilo (paquete error_fallo_segmento texto_sf)
        umv_segmentation_fault (λ (x : Cpu). ejecutar_si_hubo_stack_overflow x texto) ep answer
        refl in
    let d : Cpu = con_pila c (record (pila c) { context_size = int_add (pila c).context_size 1 }) in
    let posicion = stack_last_variable_position (pila d) in
    (
      record d { variables = (nombre, posicion) ∷ d.variables },
      int_add posicion 1,
      ap (λ x. si_normal x c 0 (definicion c nombre texto)) e
          ∙ ap
              (λ x.
                (x >>= λ y _.
                vale
                  (con_pila y (record (pila y) { context_size = int_add (pila y).context_size 1 }))
                  tt)
                >>= λ y _. anotar_variable nombre y)
              sent,
      e,
      refl,
      refl,
    )

-- An answer with the code of the refusal.
enviar_y_esperar-problema :
    (c : Cpu) (o : Option Paquete) (p : Paquete) (r : Paquete) (codigo : ℕ)
    (si_hay_problema : Cpu → Efecto (Unit {0}))
    → o ≡ some p
    → cada_cpu c.hilo p ≡ listo c.hilo (some r)
    → (r.codigo_operacion == codigo) ≡ true
    → enviar_y_esperar c o codigo si_hay_problema ≡ (si_hay_problema c >>= λ d _. vale d r)
unfolding enviar_y_esperar
enviar_y_esperar-problema c o p r codigo si_hay_problema e answer hit =
    rw (e, answer, recibir_respuesta, hit)

stack_overflow-normal :
    (c : Cpu) (texto : List ℕ)
    → c.estado ≡ normal
    → ejecutar_si_hubo_stack_overflow c texto
      ≡ vale
          (record c {
            estado = stk_overflow;
            proceso_activo = false;
            variables = [];
            al_kernel = c.al_kernel ++ paquete 10 (codificar_pcb c.current_pcb ++ texto) ∷ [];
          })
          tt
unfolding ejecutar_si_hubo_stack_overflow cerrar_proceso codigo_de_fin datos_de_fin change_state
stack_overflow-normal c texto e =
    ap (λ x. cerrar_proceso (record c { estado = change_state x stk_overflow }) texto) e

-- If the memory server refuses the write of `asignar` in the normal state, the process ends with a stack
-- overflow: the state says so, the process is no more active, and its PCB goes to the kernel with the text,
-- as an exception.
pub asignar_desborde :
    (c : Cpu) (direccion valor : ℕ) (texto : List ℕ)
    → c.estado ≡ normal
    → (pila c).base < 2 ^ 32
    → pegar_bytes c.hilo.umv
        (encode_int valor)
        (pila c).base
        (int_sub direccion (pila c).base)
        4
        c.hilo.pid_proceso_activo
      ≡ denegado
    → asignar c direccion valor texto
      ≡ vale
          (record c {
            estado = stk_overflow;
            proceso_activo = false;
            variables = [];
            al_kernel = c.al_kernel ++ paquete 10 (codificar_pcb c.current_pcb ++ texto) ∷ [];
          })
          tt
unfolding asignar encode_int
asignar_desborde c direccion valor texto e base refused =
    let (p, ep, answer) =
      escritura-denegada c.hilo (pila c).base (int_sub direccion (pila c).base) (encode_int valor)
        base (omega arith) (omega arith) refused in
    let sent =
      enviar_y_esperar-problema c _ p (paquete error_fallo_segmento texto_sf) error_fallo_segmento
        (λ (x : Cpu). ejecutar_si_hubo_stack_overflow x texto) ep answer refl in
    ap (λ x. si_normal x c tt (asignacion c direccion valor texto)) e
    ∙ ap (λ x. x >>= λ y _. vale y tt)
        (sent
          ∙ ap (λ x. x >>= λ y _. vale y (paquete error_fallo_segmento texto_sf))
              (stack_overflow-normal c texto e))
