-- ===== src/Cpu/Primitivas/Pruebas.antt =====
-- The theorems on the primitives at a small stack segment.
use personal_copy_tp.Common.{ℕ, ◌≡◌, refl, true, false, [], ◌∷◌, ◌++◌, arith, encode_int}
use personal_copy_tp.Sockets.Paquetes.{paquete}
use personal_copy_tp.Umv.Ejemplos.{dos}
use personal_copy_tp.Umv.Acceso.{denegado, pegar_bytes, buscar_segmento}
use personal_copy_tp.Cpu.Primitivas.{Cpu, normal, stk_overflow, vale, asignar, codificar_pcb}
use personal_copy_tp.Cpu.Primitivas.Desborde.{asignar_desborde}

-- A process with PID 2, its stack in the segment at 600, with `n` variables in its context.
abbrev pub cpu : ℕ → Cpu
cpu n = record {
  current_pcb = record {
    pid = 2;
    code_segment = 0;
    current_stack = record { size = 30; base = 600; context_size = n; stack_pointer = 600 };
    code_index = 0;
    indice_etiquetas = 0;
    program_counter = 0;
    tamanio_indice_etiquetas = 0;
  };
  estado = normal;
  variables = [];
  hilo = record { umv = dos; pid_proceso_activo = 2 };
  proceso_activo = true;
  al_kernel = [];
  del_kernel = [];
  diccionario_etiquetas = [];
  desconexion = false;
}

refused_new : pegar_bytes dos (120 ∷ []) 600 30 1 2 ≡ denegado
unfolding pegar_bytes buscar_segmento
refused_new = refl

refused_value : pegar_bytes dos (encode_int 77) 600 27 4 2 ≡ denegado
unfolding pegar_bytes buscar_segmento encode_int
refused_value = refl

asignar_desborde_example :
    asignar (cpu 6) 627 77 (83 ∷ 0 ∷ [])
    ≡ vale
        (record (cpu 6) {
          estado = stk_overflow;
          proceso_activo = false;
          variables = [];
          al_kernel = paquete 10 (codificar_pcb (cpu 6).current_pcb ++ 83 ∷ 0 ∷ []) ∷ [];
        })
        tt
asignar_desborde_example =
    asignar_desborde (cpu 6) 627 77 (83 ∷ 0 ∷ []) refl (omega arith) refused_value
