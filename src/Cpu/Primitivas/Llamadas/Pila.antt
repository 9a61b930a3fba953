-- ===== src/Cpu/Primitivas/Llamadas/Pila.antt =====
-- proyectoCPU/stack.c on a stack segment that the memory server grants: what a push writes, and what a
-- pop and a read of the context find there.
use personal_copy_tp.Common.{
  ℕ, ◌+◌, ◌-◌, ◌^◌, ◌<◌, ◌≤◌, ◌≡◌, refl, ap, ◌∙◌, ◌==◌, List, [], length, some, arith, int_add,
  int_sub, false, read_bytes, write_bytes, take_all, Memory, ptr_add_nonneg,
}
use personal_copy_tp.Sockets.Paquetes.{paquete}
use personal_copy_tp.Umv.Estado.{Segmento, Umv}
use personal_copy_tp.Umv.Acceso.{hecho, buscar_segmento, leer_bytes, pegar_bytes}
use personal_copy_tp.Umv.Servidor.{
  con_umv, tras_leer, umv_mensaje_cpu_escribir, umv_mensaje_cpu_leer, texto_ok,
}
use personal_copy_tp.Umv.Servidor.Escrituras.{cada_cpu-leer}
use personal_copy_tp.Cpu.Paquetes.{paquete_leer_umv_lem}
use personal_copy_tp.Cpu.Memoria.{escribir_y_leer}
use personal_copy_tp.Cpu.Primitivas.{
  Cpu, Efecto, vale, ◌>>=◌, pila, con_pila, stack_push, umv_segmentation_fault,
  ejecutar_si_hubo_segmentation_fault, ejecutar_si_hubo_stack_overflow,
}
use personal_copy_tp.Cpu.Primitivas.Variables.{con_hilo, enviar_y_esperar-listo}
use personal_copy_tp.Cpu.Primitivas.Llamadas.{stack_pop, texto_segmento}

abbrev pub con_memoria : Umv → Memory → Umv
con_memoria u m = record u { memoria = m }

-- The stack of the process lies in the segment `s`.
pub record EnSegmento (c : Cpu) (s : Segmento) : Type 0 where
  pub hallado :
      buscar_segmento c.hilo.umv.lista_de_segmentos (pila c).base c.hilo.pid_proceso_activo ≡ some s
  pub tamano_int : s.tamano_segmento < 2 ^ 31
  pub direccionable : s.direccion_real + s.tamano_segmento < 2 ^ 64
  pub base_int : (pila c).base + s.tamano_segmento < 2 ^ 32
  pub base_le : (pila c).base ≤ (pila c).stack_pointer

abbrev pub memoria : Cpu → Memory
memoria c = c.hilo.umv.memoria

abbrev pub con_bytes : Cpu → ℕ → List ℕ → Cpu
con_bytes c p bytes =
    con_hilo c (con_umv c.hilo (con_memoria c.hilo.umv (write_bytes (memoria c) p bytes)))

-- Where the stack pointer points in the memory of the server.
abbrev pub tope : Cpu → Segmento → ℕ
tope c s = s.direccion_real + ((pila c).stack_pointer - (pila c).base)

module _ (u : Umv) (base offset pid : ℕ) (s : Segmento) where
  pub leer-en :
      (n : ℕ)
      → buscar_segmento u.lista_de_segmentos base pid ≡ some s
      → s.tamano_segmento < 2 ^ 31
      → s.direccion_real + s.tamano_segmento < 2 ^ 64
      → offset + n ≤ s.tamano_segmento
      → leer_bytes u base offset n pid ≡ hecho (read_bytes u.memoria (s.direccion_real + offset) n)
  unfolding leer_bytes
  leer-en n e h k fits = rw (e, leer_bytes) (ground (arith, ptr_add_nonneg s.direccion_real offset))

  pub pegar-en :
      (bytes : List ℕ)
      → buscar_segmento u.lista_de_segmentos base pid ≡ some s
      → s.tamano_segmento < 2 ^ 31
      → s.direccion_real + s.tamano_segmento < 2 ^ 64
      → offset + length bytes ≤ s.tamano_segmento
      → pegar_bytes u bytes base offset (length bytes) pid
        ≡ hecho (con_memoria u (write_bytes u.memoria (s.direccion_real + offset) bytes))
  unfolding pegar_bytes
  pegar-en bytes e h k fits =
      let whole = take_all (length bytes) bytes (omega arith) in
      rw (e, pegar_bytes, whole) (ground (arith, ptr_add_nonneg s.direccion_real offset))

module _ (c : Cpu) (s : Segmento) (en : EnSegmento c s) where
  pub stack_push-hecho :
      (bytes : List ℕ) (offset : ℕ) (texto : List ℕ)
      → 0 < length bytes
      → (pila c).stack_pointer + offset + length bytes ≤ (pila c).base + s.tamano_segmento
      → stack_push c bytes (length bytes) offset texto
        ≡ vale
            (con_pila
              (con_bytes c (tope c s + offset) bytes)
              (record (pila c) { context_size = int_add (pila c).context_size 1 }))
            tt
  unfolding stack_push
  stack_push-hecho bytes offset texto pos fits =
      let base = (pila c).base in
      let off = int_add (int_sub (pila c).stack_pointer base) offset in
      let at : off ≡ (pila c).stack_pointer - base + offset =
        omega (arith, en.base_int, en.base_le) in
      let place : s.direccion_real + ((pila c).stack_pointer - base + offset) ≡ tope c s + offset =
        omega arith in
      let small : off + length bytes ≤ s.tamano_segmento = omega (arith, en.base_le, at) in
      let granted =
        pegar-en c.hilo.umv base off c.hilo.pid_proceso_activo s bytes en.hallado en.tamano_int
          en.direccionable small in
      let (p, _, ep, _, wrote, _) =
        escribir_y_leer c.hilo base off bytes (omega (arith, en.base_int)) (omega arith) pos
          (omega (arith, en.tamano_int)) granted in
      let sent =
        enviar_y_esperar-listo c _ p _ (paquete umv_mensaje_cpu_escribir texto_ok)
          umv_segmentation_fault (λ (d : Cpu). ejecutar_si_hubo_stack_overflow d texto) ep wrote
          refl in
      ap
        (λ (x : Efecto _). x >>= λ d _.
          vale (con_pila d (record (pila d) { context_size = int_add (pila d).context_size 1 })) tt)
        sent
      ∙ ap
          (λ q.
            vale
              (con_pila (con_bytes c q bytes)
                (record (pila c) { context_size = int_add (pila c).context_size 1 }))
              tt)
          (ap (λ o. s.direccion_real + o) at ∙ place)

  pub stack_pop-hecho :
      (k n : ℕ)
      → 0 < k
      → 0 < n
      → n ≤ k
      → (pila c).base + k ≤ (pila c).stack_pointer
      → (pila c).stack_pointer ≤ (pila c).base + s.tamano_segmento
      → stack_pop c (int_sub 0 k) n ≡ vale c (read_bytes (memoria c) (tope c s - k) n)
  unfolding stack_pop
  stack_pop-hecho k n hk hn le low high =
      let base = (pila c).base in
      let off = int_add (int_sub (pila c).stack_pointer base) (int_sub 0 k) in
      let at : off ≡ (pila c).stack_pointer - base - k = omega (arith, en.base_int) in
      let place : s.direccion_real + off ≡ tope c s - k = omega (arith, at) in
      let read =
        leer-en c.hilo.umv base off c.hilo.pid_proceso_activo s n en.hallado en.tamano_int
          en.direccionable (omega (arith, at)) in
      let nonzero : (n == 0) ≡ false = ground arith in
      let answer =
        cada_cpu-leer c.hilo base off (omega (arith, en.base_int)) (omega arith) n []
          (omega (arith, en.base_int))
        ∙ ap (tras_leer c.hilo n) read
        ∙ rw (nonzero, place) in
      let sent =
        enviar_y_esperar-listo c _ _ c.hilo
          (paquete umv_mensaje_cpu_leer (read_bytes (memoria c) (tope c s - k) n))
          umv_segmentation_fault (λ (d : Cpu). ejecutar_si_hubo_segmentation_fault d texto_segmento)
          (paquete_leer_umv_lem base off n) answer refl in
      ap (λ (x : Efecto _). x >>= λ d r. vale d r.datos) sent
