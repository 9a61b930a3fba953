-- ===== src/Kernel/Rondas/Pruebas.antt =====
-- The theorems on the threads of proyectoKernel at a small state.
use personal_copy_tp.Common.{ℕ, ◌≤◌, ◌≡◌, ◌≢◌, refl, [], ◌∷◌, none, some}
use personal_copy_tp.Commons.{ListOps}
use personal_copy_tp.Commons.Reference.{list_ops}
use personal_copy_tp.Kernel.{
  Pcb, NodoProceso, NodoCpu, NodoEjecutando, Semaforo, Dispositivo, Kernel, buscar_semaforo,
  buscar_dispositivo, mismo_nombre,
}
use personal_copy_tp.Kernel.Rondas.{
  siguiente, nulo, hilo_multiprogramacion, hilo_destruccion, get_process_to_dispatch,
  get_cpu_and_dispatch, in_out_thread, wait_request, signal_request,
}
use personal_copy_tp.Kernel.Validez.{IsValid, en_sistema}
use personal_copy_tp.Kernel.Pasos.{
  admite, Alcanza, inicio, otro, Alcanza-IsValid, Alcanza-sin_nulos,
}
use personal_copy_tp.Kernel.Rondas.Esperas.{wait-signal_pcb_viejo}

abbrev lib : ListOps NodoProceso
lib = list_ops

abbrev pcb : ℕ → ℕ → Pcb
pcb pid pc = record {
  pid = pid;
  code_segment = 0;
  current_stack = record { size = 0; base = 0; context_size = 0; stack_pointer = 0 };
  code_index = 0;
  indice_etiquetas = 0;
  program_counter = pc;
  tamanio_indice_etiquetas = 0;
}

abbrev proceso : ℕ → NodoProceso
proceso pid = record { pcb = pcb pid 0; peso = 1; soquet_prog = 9 }

abbrev cpu : NodoCpu
cpu = record { socket = 4; pid = 40 }

abbrev nodo : NodoEjecutando
nodo = record { proceso = proceso 1; cpu = cpu }

abbrev mutex : Semaforo
mutex = record { nombre = 109 ∷ []; valor = 0; bloqueados = [] }

abbrev disco : Dispositivo
disco = record { nombre = 100 ∷ []; retardo = 1; bloqueados = []; sem_io = 0 }

-- One process runs, one is new, and the degree of multiprogramming is 2.
abbrev kernel : Kernel
kernel = record {
  lista_nuevos = proceso 2 ∷ [];
  lista_listos = [];
  lista_ejecutando = nodo ∷ [];
  lista_terminados = [];
  lista_cpu_libres = [];
  despachando = none;
  entregado = none;
  semaforos = mutex ∷ [];
  dispositivos = disco ∷ [];
  sem_lista_nuevos = 1;
  sem_lista_listos = 0;
  sem_lista_terminados = 0;
  sem_lista_cpu = 0;
  sem_multiprog = 1;
}

kernel-IsValid : IsValid 2 0 kernel
kernel-IsValid = record {
  nuevos = refl;
  listos = refl;
  terminados = refl;
  cpus = refl;
  dispositivos = (refl, tt);
  multiprogramacion = refl;
}

abbrev admitido : Kernel
admitido = record kernel {
  lista_nuevos = [];
  lista_listos = proceso 2 ∷ [];
  sem_lista_nuevos = 0;
  sem_lista_listos = 1;
  sem_multiprog = 0;
}

admision : hilo_multiprogramacion kernel ≡ siguiente admitido
unfolding hilo_multiprogramacion
admision = refl

un_paso : Alcanza lib kernel admitido
un_paso = otro inicio (admite admision)

Alcanza-IsValid_example : IsValid 2 0 admitido × (en_sistema admitido ≤ 2)
Alcanza-IsValid_example = Alcanza-IsValid lib 2 kernel-IsValid un_paso

disco_found : buscar_dispositivo (100 ∷ []) admitido.dispositivos ≡ some disco
unfolding buscar_dispositivo mismo_nombre
disco_found = refl

Alcanza-sin_nulos_example :
    (hilo_multiprogramacion admitido ≢ nulo)
    × (hilo_destruccion admitido ≢ nulo)
    × (get_process_to_dispatch admitido ≢ nulo)
    × (get_cpu_and_dispatch admitido (proceso 2) ≢ nulo)
    × (in_out_thread admitido (100 ∷ []) ≢ nulo)
Alcanza-sin_nulos_example =
    Alcanza-sin_nulos lib 2 (proceso 2) (100 ∷ []) disco kernel-IsValid un_paso disco_found

found : buscar_semaforo (109 ∷ []) kernel.semaforos ≡ some mutex
unfolding buscar_semaforo mismo_nombre
found = refl

wait-signal_pcb_viejo_example :
    (k' : Kernel) × (k'' : Kernel) × (wait_request kernel 0 nodo (109 ∷ []) (some (pcb 1 33))
      ≡ siguiente k')
    × (signal_request k' (109 ∷ []) ≡ siguiente k'')
    × (k''.lista_listos ≡ proceso 1 ∷ [])
wait-signal_pcb_viejo_example =
    wait-signal_pcb_viejo kernel 0 nodo (109 ∷ []) (pcb 1 33) found refl refl
