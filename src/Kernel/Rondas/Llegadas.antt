-- ===== src/Kernel/Rondas/Llegadas.antt =====
-- A CPU that comes to proyectoKernel, and a process that comes onto the executing list, keep the invariant of
-- the queues.
use personal_copy_tp.Common.{
  ℕ, ◌==◌, ◌≡◌, ap, subst, Option, none, some, [], ◌∷◌, length-append, arith, Bool-cases,
  Option-cases, inl, inr, decode_int,
}
use personal_copy_tp.Sockets.{Paquete}
use personal_copy_tp.Kernel.{NodoEjecutando, Kernel, add_cpu_to_cpu_free_list}
use personal_copy_tp.Kernel.Rondas.{
  siguiente, nulo, handshake, add_to_executing_list, do_handshake_cpu,
}
use personal_copy_tp.Kernel.Validez.{IsValid, Segura, en_entrega, add_cpu_to_cpu_free_list-IsValid}

module _ (grado : ℕ) (k : Kernel) (i : IsValid grado 0 k) where
  pub add_to_executing_list-IsValid :
      (e : NodoEjecutando) → k.entregado ≡ some e → IsValid grado 0 (add_to_executing_list k e)
  unfolding add_to_executing_list
  add_to_executing_list-IsValid e sent =
      let held = ap en_entrega sent in
      let more = length-append k.lista_ejecutando (e ∷ []) in
      record {
        nuevos = i.nuevos;
        listos = i.listos;
        terminados = i.terminados;
        cpus = i.cpus;
        dispositivos = i.dispositivos;
        multiprogramacion = omega (arith, i.multiprogramacion);
      }

  pub do_handshake_cpu-IsValid :
      (socket : ℕ) (respuesta : Option Paquete) {k' : Kernel}
      → do_handshake_cpu k socket respuesta ≡ siguiente k'
      → IsValid grado 0 k'
  unfolding do_handshake_cpu
  do_handshake_cpu-IsValid socket none e = cc
  do_handshake_cpu-IsValid socket (some p) {k'} e =
      elim (Bool-cases (p.codigo_operacion == handshake)) [
        | inr other ↦ subst (Segura grado) (rw other at e) i
        | inl greeting ↦ elim (Option-cases (decode_int p.datos)) [
          | inl short ↦ let bad : nulo ≡ siguiente k' = rw (greeting, short) at e in cc
          | inr (pid, whole) ↦
              let next : siguiente
                    (add_cpu_to_cpu_free_list k (record { socket = socket; pid = pid }))
                  ≡ siguiente k' =
                rw (greeting, whole) at e in
              subst (Segura grado) next (add_cpu_to_cpu_free_list-IsValid grado 0 k _ i)
        ]
      ]
