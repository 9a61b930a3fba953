-- ===== src/Umv.antt =====
-- proyectoUMV: the memory server.
pub mod Estado
pub mod Invariante
pub mod Acceso
pub mod Asignacion
pub mod Liberacion
pub mod Compactacion
pub mod Servidor
pub mod Consola
pub mod Abstracto
pub mod Ejemplos
