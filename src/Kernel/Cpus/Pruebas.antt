-- ===== src/Kernel/Cpus/Pruebas.antt =====
-- A process that is given to a CPU, and an idle CPU that goes away.
use personal_copy_tp.Common.{ℕ, ◌≡◌, refl, false, [], ◌∷◌, none, some, arith}
use personal_copy_tp.Sockets.{Paquete}
use personal_copy_tp.Umv.Ejemplos.{dos}
use personal_copy_tp.Cpu.Primitivas.{Cpu, vale, normal}
use personal_copy_tp.Cpu.Ciclo.{get_new_pcb}
use personal_copy_tp.Kernel.{Pcb, NodoProceso, NodoCpu, Kernel}
use personal_copy_tp.Kernel.Validez.{IsValid}
use personal_copy_tp.Kernel.Rondas.{nulo, get_cpu_and_dispatch}
use personal_copy_tp.Kernel.Cpus.{dispatch, remove_cpu_from_kernel}
use personal_copy_tp.Kernel.Cpus.Entrega.{dispatch-get_new_pcb, remove_cpu_from_kernel-nulo}

abbrev pcb : ℕ → Pcb
pcb pid = record {
  pid = pid;
  code_segment = 500;
  current_stack = record { size = 20; base = 600; context_size = 0; stack_pointer = 600 };
  code_index = 800;
  indice_etiquetas = 700;
  program_counter = 2;
  tamanio_indice_etiquetas = 3;
}

abbrev proceso : NodoProceso
proceso = record { pcb = pcb 3; peso = 1; soquet_prog = 9 }

abbrev libre : NodoCpu
libre = record { socket = 4; pid = 40 }

abbrev kernel : Kernel
kernel = record {
  lista_nuevos = [];
  lista_listos = [];
  lista_ejecutando = [];
  lista_terminados = [];
  lista_cpu_libres = libre ∷ [];
  despachando = none;
  entregado = none;
  semaforos = [];
  dispositivos = [];
  sem_lista_nuevos = 0;
  sem_lista_listos = 0;
  sem_lista_terminados = 0;
  sem_lista_cpu = 1;
  sem_multiprog = 2;
}

kernel-IsValid : IsValid 2 0 kernel
kernel-IsValid = record {
  nuevos = refl;
  listos = refl;
  terminados = refl;
  cpus = refl;
  dispositivos = tt;
  multiprogramacion = refl;
}

remove_cpu_from_kernel-nulo_example :
    get_cpu_and_dispatch (remove_cpu_from_kernel kernel 4) proceso ≡ nulo
remove_cpu_from_kernel-nulo_example =
    remove_cpu_from_kernel-nulo 2 kernel libre proceso kernel-IsValid refl

abbrev cpu : Cpu
cpu = record {
  estado = normal;
  current_pcb = pcb 2;
  proceso_activo = false;
  hilo = record { umv = dos; pid_proceso_activo = 2 };
  variables = [];
  al_kernel = [];
  del_kernel = [];
  diccionario_etiquetas = [];
  desconexion = false;
}

dispatch-get_new_pcb_example :
    (q : Paquete) × (dispatch proceso ≡ some q)
    × (get_new_pcb (record cpu { del_kernel = q ∷ [] })
        ≡ vale (record cpu { current_pcb = pcb 3 }) tt)
dispatch-get_new_pcb_example = dispatch-get_new_pcb proceso cpu [] (omega arith)
