-- ===== src/Kernel/Cpus/Entrega.antt =====
-- A process that the dispatcher of proyectoKernel gives to a CPU of proyectoCPU, and a CPU that goes away.
use personal_copy_tp.Common.{
  ℕ, ◌==◌, ◌≡◌, refl, ap, sym, ◌∙◌, List, [], ◌∷◌, some, true, false, length, arith, encode_int,
}
use mathlib.Core.List.{append-nil}
use personal_copy_tp.Sockets.{Paquete, pedir_paquete}
use personal_copy_tp.Sockets.Paquetes.{paquete, pedir_paquete_lem}
use personal_copy_tp.Cpu.Primitivas.{Cpu, vale, codificar_pcb}
use personal_copy_tp.Cpu.Primitivas.Sistema.Envios.{codificar_pcb-append}
use personal_copy_tp.Cpu.Ciclo.{pcp_cpu_program_to_execute, recibir_pcb, get_new_pcb}
use personal_copy_tp.Kernel.{NodoProceso, NodoCpu, Kernel}
use personal_copy_tp.Kernel.Validez.{IsValid}
use personal_copy_tp.Kernel.Rondas.{nulo, get_cpu_and_dispatch, sacar_cpu}
use personal_copy_tp.Kernel.Mensajes.{unserialize_pcb, sizeof_pcb}
use personal_copy_tp.Kernel.Mensajes.Pcbs.{EsPcb, unserialize_pcb_lem}
use personal_copy_tp.Kernel.Cpus.{dispatch, quitar_cpu, remove_cpu_from_kernel}

length-codificar_pcb : (n : NodoProceso) → length (codificar_pcb n.pcb) ≡ sizeof_pcb
unfolding codificar_pcb encode_int
length-codificar_pcb n = refl

-- The packet with which the dispatcher gives a process to a CPU is one from which the CPU takes just the PCB
-- of the process, and leaves what follows.
pub dispatch-get_new_pcb :
    (p : NodoProceso) (c : Cpu) (resto : List Paquete)
    → EsPcb p.pcb
    → (q : Paquete) × (dispatch p ≡ some q)
      × (get_new_pcb (record c { del_kernel = q ∷ resto })
          ≡ vale (record c { current_pcb = p.pcb; del_kernel = resto }) tt)
unfolding dispatch get_new_pcb
dispatch-get_new_pcb p c resto k =
    let datos = codificar_pcb p.pcb in
    let back : unserialize_pcb datos ≡ some p.pcb =
      ap unserialize_pcb (sym (append-nil datos) ∙ codificar_pcb-append p.pcb [])
      ∙ unserialize_pcb_lem p.pcb [] k in
    (
      paquete pcp_cpu_program_to_execute datos,
      ap (pedir_paquete datos pcp_cpu_program_to_execute) (sym (length-codificar_pcb p))
          ∙ pedir_paquete_lem datos pcp_cpu_program_to_execute,
      ap (recibir_pcb (record c { del_kernel = resto })) back,
    )

-- If the only free CPU of a valid kernel goes away, the dispatcher does not wait for another one: it gives
-- the next process to a CPU through a null pointer.
pub remove_cpu_from_kernel-nulo :
    (grado : ℕ) (k : Kernel) (c : NodoCpu) (p : NodoProceso)
    → IsValid grado 0 k
    → k.lista_cpu_libres ≡ c ∷ []
    → get_cpu_and_dispatch (remove_cpu_from_kernel k c.socket) p ≡ nulo
unfolding get_cpu_and_dispatch remove_cpu_from_kernel quitar_cpu sacar_cpu
remove_cpu_from_kernel-nulo grado k c p i e =
    let one : k.sem_lista_cpu ≡ 1 = i.cpus ∙ ap length e in
    let free : (k.sem_lista_cpu == 0) ≡ false = ground arith in
    let own : (c.socket == c.socket) ≡ true = ground arith in
    rw (free, get_cpu_and_dispatch, e, own) refl
