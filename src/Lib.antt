-- ===== src/Lib.antt =====
-- personalCopyTP: a small distributed operating system for AnSISOP programs, written in C. Its
-- parts are processes that talk through sockets: the memory server (proyectoUMV), the kernel
-- (proyectoKernel), the processors (proyectoCPU) and the programs (proyectoPrograma). They share the
-- socket library conitos-estaCoverflow.
--
-- A program is sent to the kernel, which asks the memory server for its segments; a processor runs
-- it and asks the memory server for each byte, by the virtual address of a segment and an offset.
--
-- What models what, with paths from the root of the repository:
--   Common, Commons: numbers, bytes and lists that the parts share, and the list functions of the
--     commons library as an interface (`ListOps`): that library is not in the repository. Its laws are
--     those that its headers document; Commons/Reference.antt meets them with a concrete list.
--     Commons/Strings has the interface of its functions on C strings (`StringOps`) and a concrete one.
--   Sockets: conitos-estaCoverflow/common_sockets.c. A packet is a record, a connection is the bytes
--     that still arrive and whether it then breaks, and the answers of `send` are a list.
--   Umv/Estado: the globals of proyectoUMV/umv.h as one record, `Umv`, the pool as memory.
--   Umv/Acceso: leerBytes and pegarBytes.  Umv/Asignacion: firstFit, worstFit, crearSegmento.
--   Umv/Liberacion: destruirSegmentosDeUnPrograma, eliminaVacios, testEliminaSegmento.
--   Umv/Compactacion: compactador.  Umv/Servidor: one round of hiloKernel and of cadaCPU.
--   Umv/Consola: one round of consola, the start of the table, and the orders of test.
--   Umv/Abstracto: what the memory server promises, as texts of bytes by PID and address, and the machine
--     of these texts that Umv/Acceso, Umv/Asignacion, Umv/Liberacion and Umv/Compactacion implement.
--   Cpu/Paquetes: the packets of proyectoCPU/decoracionDePaquetesCPU.c; Cpu/Memoria: a CPU and the
--     memory server together; Cpu/Primitivas: the stack, the end of a process and the primitives on
--     variables (stack.c, common_execution.c, terminateActions.c, primitivas.c).
--     Cpu/Primitivas/Textos: removeNewLine. Cpu/Primitivas/Llamadas: calls and returns, labels, and the
--     dictionary of variables that common_execution.c builds again from the stack.
--     Cpu/Primitivas/Sistema: the system calls, with the packets that go to the kernel and the answers
--     that come. The process and its CPU are one record, `Cpu`, with the memory server inside it.
--   Cpu/Ciclo: one round of the loop of proyectoCPU/CPU.c, a quantum of instructions, and the signals.
--     The parser, which is not in the repository, is an argument: it gives the effect of a line.
--   Kernel: the queues of proyectoKernel (globals.c, semaforos.c) as one record, with the POSIX
--     semaphores as numbers. Kernel/Rondas: one round of each thread and each message of a CPU
--     (accionesParaCPU.c, dispatcher.c, entradaSalida.c, plp.c); Kernel/Validez: the invariant of the
--     queues; Kernel/Pasos: the rounds in any order; Kernel/Mensajes: the data in the messages of a CPU,
--     the shared variables, and what a program is sent to print; Kernel/Cpus: the packet that gives a
--     process to a CPU, and the removal of a CPU (dispatcher.c, pcp.c). Kernel/Rondas/Llegadas: the arrival of
--     a CPU. The dispatcher sends a process and then notes it as running: these are two rounds.
--     Kernel/Plp: the requests for the segments of a program (plp.c), with the memory server that answers
--     them; Kernel/Plp/Admision: atenderProgramaEntrante, which either queues the program and fills its
--     segments or gives them back. What the parser finds out of the script is an argument.
--
-- Integers are 32-bit patterns with wrap-around, signed where the C types are; addresses have 64 bits.
-- `rand` is a list of the values to come, and a loop that draws from it gives `none` where the list
-- ends first; the theorems that say that a request returns ask only for one value other than 0. The
-- other loops are recursions on lists or on the rounds left, so they end.
-- A read of an uninitialised struct is an argument (`basura`). `memcpy` out of a buffer's bounds is an
-- outcome of its own. C does not say what `memcpy` leaves of ranges that meet, as those of a compaction may:
-- it is an argument (`solapado` of `Umv`), and what is said of bytes after a compaction is said where no
-- segment is moved over its old place.
-- `IsValid` (Umv/Invariante) is the invariant of the segment table: the nodes lie in the pool, share
-- no byte, have an owner or are holes, and make up the pool.
--
-- Left out: what the console reads and prints, the dumps of the memory, logs, configuration files, the
-- setup of sockets and threads, the handshakes but for the node that a CPU gets, the poll loops with
-- handlerCPU of pcp.c, which call the handlers, and delays: they only bring the messages in and show the
-- state.
pub mod Common
pub mod Commons
pub mod Sockets
pub mod Umv
pub mod Cpu
pub mod Kernel
