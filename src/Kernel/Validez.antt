-- ===== src/Kernel/Validez.antt =====
-- The invariant of the queues of proyectoKernel, and that each round keeps it.
use personal_copy_tp.Common.{
  ℕ, suc, ◌+◌, ◌≡◌, List, [], ◌∷◌, Option, none, some, get_elem?, length, length-append, arith, All,
}
use personal_copy_tp.Kernel.{
  Pcb, NodoProceso, NodoCpu, NodoEjecutando, Semaforo, Dispositivo, Kernel, buscar_semaforo,
  poner_semaforo, buscar_dispositivo, poner_dispositivo, remove_from_executing_list,
  add_cpu_to_cpu_free_list, add_to_ready_queue, stop_processing, pcp_exit_process, con_pcb,
  actualizar_pcb,
}
use personal_copy_tp.Kernel.Rondas.{Ronda, siguiente, bloqueada, nulo}
use personal_copy_tp.Kernel.Listas.{
  bloqueados_en_semaforos, bloqueados_en_dispositivos, remove_by_pid-length, poner_en-length,
  poner_semaforo-bloqueados, poner_dispositivo-bloqueados, Contado, poner_dispositivo-Contado,
}

abbrev pub en_despacho : Option NodoProceso → ℕ
en_despacho none = 0
en_despacho (some p) = 1

abbrev pub en_entrega : Option NodoEjecutando → ℕ
en_entrega none = 0
en_entrega (some e) = 1

-- The processes that the degree of multiprogramming counts.
abbrev pub en_sistema : Kernel → ℕ
en_sistema k =
    length k.lista_listos
    + en_despacho k.despachando
    + en_entrega k.entregado
    + length k.lista_ejecutando
    + bloqueados_en_semaforos k.semaforos
    + bloqueados_en_dispositivos k.dispositivos

-- Each POSIX semaphore counts its queue, and the free places of the degree of multiprogramming, the
-- processes in the system and the `fuera` processes that a thread holds make up the degree.
pub record IsValid (grado fuera : ℕ) (k : Kernel) : Type 0 where
  pub nuevos : k.sem_lista_nuevos ≡ length k.lista_nuevos
  pub listos : k.sem_lista_listos ≡ length k.lista_listos
  pub terminados : k.sem_lista_terminados ≡ length k.lista_terminados
  pub cpus : k.sem_lista_cpu ≡ length k.lista_cpu_libres
  pub dispositivos : All Contado k.dispositivos
  pub multiprogramacion : k.sem_multiprog + en_sistema k + fuera ≡ grado

-- What a round may end in: the next state keeps the invariant, or the thread waits; no null
-- pointer is used.
abbrev pub Segura : ℕ → Ronda → Type 0
Segura grado (siguiente k) = IsValid grado 0 k
Segura grado bloqueada = Unit
Segura grado nulo = ⊥

module _ (grado : ℕ) where
  pub add_to_ready_queue-IsValid :
      (fuera : ℕ) (k : Kernel) (p : NodoProceso)
      → IsValid grado (suc fuera) k
      → IsValid grado fuera (add_to_ready_queue k p)
  unfolding add_to_ready_queue
  add_to_ready_queue-IsValid fuera k p i =
      let len = length-append k.lista_listos (p ∷ []) in
      record {
        nuevos = i.nuevos;
        listos = omega (arith, i.listos);
        terminados = i.terminados;
        cpus = i.cpus;
        dispositivos = i.dispositivos;
        multiprogramacion = omega (arith, i.multiprogramacion);
      }

  pub add_cpu_to_cpu_free_list-IsValid :
      (fuera : ℕ) (k : Kernel) (c : NodoCpu)
      → IsValid grado fuera k
      → IsValid grado fuera (add_cpu_to_cpu_free_list k c)
  unfolding add_cpu_to_cpu_free_list
  add_cpu_to_cpu_free_list-IsValid fuera k c i =
      let len = length-append k.lista_cpu_libres (c ∷ []) in
      record {
        nuevos = i.nuevos;
        listos = i.listos;
        terminados = i.terminados;
        cpus = omega (arith, i.cpus);
        dispositivos = i.dispositivos;
        multiprogramacion = i.multiprogramacion;
      }

  pub remove_from_executing_list-IsValid :
      (fuera j : ℕ) (k : Kernel) (e : NodoEjecutando)
      → IsValid grado fuera k
      → get_elem? k.lista_ejecutando j ≡ some e
      → IsValid grado (suc fuera) (remove_from_executing_list k e)
  unfolding remove_from_executing_list
  remove_from_executing_list-IsValid fuera j k e i at =
      let len = remove_by_pid-length k.lista_ejecutando j at in
      record {
        nuevos = i.nuevos;
        listos = i.listos;
        terminados = i.terminados;
        cpus = i.cpus;
        dispositivos = i.dispositivos;
        multiprogramacion = omega (arith, i.multiprogramacion);
      }

  pub actualizar_pcb-IsValid :
      (fuera j : ℕ) (k : Kernel) (e : NodoEjecutando) (pcb : Pcb)
      → IsValid grado fuera k
      → IsValid grado fuera (actualizar_pcb k j e pcb)
  actualizar_pcb-IsValid fuera j k e pcb i =
      let len = poner_en-length j (con_pcb e pcb) k.lista_ejecutando in
      record {
        nuevos = i.nuevos;
        listos = i.listos;
        terminados = i.terminados;
        cpus = i.cpus;
        dispositivos = i.dispositivos;
        multiprogramacion = omega (arith, i.multiprogramacion);
      }

  pub stop_processing-IsValid :
      (fuera j : ℕ) (k : Kernel) (e : NodoEjecutando)
      → IsValid grado fuera k
      → get_elem? k.lista_ejecutando j ≡ some e
      → IsValid grado (suc fuera) (stop_processing k e)
  unfolding stop_processing
  stop_processing-IsValid fuera j k e i at =
      add_cpu_to_cpu_free_list-IsValid (suc fuera) (remove_from_executing_list k e) e.cpu
        (remove_from_executing_list-IsValid fuera j k e i at)

  -- The process leaves the system, and its place is free.
  pub pcp_exit_process-IsValid :
      (j : ℕ) (k : Kernel) (e : NodoEjecutando)
      → IsValid grado 0 k
      → get_elem? k.lista_ejecutando j ≡ some e
      → IsValid grado 0 (pcp_exit_process k e)
  unfolding pcp_exit_process remove_from_executing_list add_cpu_to_cpu_free_list
  pcp_exit_process-IsValid j k e i at =
      let len = remove_by_pid-length k.lista_ejecutando j at in
      let cpus = length-append k.lista_cpu_libres (e.cpu ∷ []) in
      let ended = length-append k.lista_terminados (e.proceso ∷ []) in
      record {
        nuevos = i.nuevos;
        listos = i.listos;
        terminados = omega (arith, i.terminados);
        cpus = omega (arith, i.cpus);
        dispositivos = i.dispositivos;
        multiprogramacion = omega (arith, i.multiprogramacion);
      }

  -- A semaphore changes, and `menos` processes less, or `mas` more, are blocked on it.
  pub poner_semaforo-IsValid :
      (fuera fuera' : ℕ) (k : Kernel) (nombre : List ℕ) (t : Semaforo) {s : Semaforo}
      → IsValid grado fuera k
      → buscar_semaforo nombre k.semaforos ≡ some s
      → length t.bloqueados + fuera' ≡ length s.bloqueados + fuera
      → IsValid grado fuera' (record k { semaforos = poner_semaforo nombre t k.semaforos })
  poner_semaforo-IsValid fuera fuera' k nombre t i found moved =
      let len = poner_semaforo-bloqueados nombre t k.semaforos found in
      record {
        nuevos = i.nuevos;
        listos = i.listos;
        terminados = i.terminados;
        cpus = i.cpus;
        dispositivos = i.dispositivos;
        multiprogramacion = omega (arith, i.multiprogramacion);
      }

  pub poner_dispositivo-IsValid :
      (fuera fuera' : ℕ) (k : Kernel) (nombre : List ℕ) (t : Dispositivo) {d : Dispositivo}
      → IsValid grado fuera k
      → buscar_dispositivo nombre k.dispositivos ≡ some d
      → Contado t
      → length t.bloqueados + fuera' ≡ length d.bloqueados + fuera
      → IsValid grado fuera' (record k { dispositivos = poner_dispositivo nombre t k.dispositivos })
  poner_dispositivo-IsValid fuera fuera' k nombre t i found counted moved =
      let len = poner_dispositivo-bloqueados nombre t k.dispositivos found in
      record {
        nuevos = i.nuevos;
        listos = i.listos;
        terminados = i.terminados;
        cpus = i.cpus;
        dispositivos = poner_dispositivo-Contado nombre t k.dispositivos counted i.dispositivos;
        multiprogramacion = omega (arith, i.multiprogramacion);
      }
