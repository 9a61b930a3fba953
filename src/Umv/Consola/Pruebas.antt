-- ===== src/Umv/Consola/Pruebas.antt =====
-- Tests of the console of proyectoUMV/umv.c.
