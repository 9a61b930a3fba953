-- ===== src/Kernel/Cpus.antt =====
-- What the kernel does with the CPUs: the packet of proyectoKernel/dispatcher.c that gives a process to a CPU,
-- and `removeCPUFromKernel` of pcp.c, for a CPU that goes away while no process runs.
pub mod Entrega
mod Pruebas
use personal_copy_tp.Common.{ℕ, ◌==◌, List, [], ◌∷◌, Option, if◌then◌else◌}
use personal_copy_tp.Sockets.{Paquete, pedir_paquete}
use personal_copy_tp.Cpu.Primitivas.{codificar_pcb}
use personal_copy_tp.Cpu.Ciclo.{pcp_cpu_program_to_execute}
use personal_copy_tp.Kernel.{NodoProceso, NodoCpu, Kernel}
use personal_copy_tp.Kernel.Mensajes.{sizeof_pcb}

pub dispatch : NodoProceso → Option Paquete
dispatch p = pedir_paquete (codificar_pcb p.pcb) pcp_cpu_program_to_execute sizeof_pcb

-- `list_remove_by_condition`: the first CPU with the socket.
pub quitar_cpu : ℕ → List NodoCpu → List NodoCpu
quitar_cpu socket [] = []
quitar_cpu socket (c ∷ cs) = if c.socket == socket then cs else c ∷ quitar_cpu socket cs

-- The semaphore that counts the free CPUs is left as it was.
pub remove_cpu_from_kernel : Kernel → ℕ → Kernel
remove_cpu_from_kernel k socket = record k {
  lista_cpu_libres = quitar_cpu socket k.lista_cpu_libres;
}
