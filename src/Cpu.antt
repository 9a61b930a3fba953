-- ===== src/Cpu.antt =====
-- proyectoCPU: the processor, which asks the memory server for each byte.
pub mod Paquetes
pub mod Memoria
pub mod Primitivas
pub mod Ciclo
