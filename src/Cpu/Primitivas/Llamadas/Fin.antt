-- ===== src/Cpu/Primitivas/Llamadas/Fin.antt =====
-- `terminarProceso` of proyectoCPU/common_execution.c for a process whose quantum is over or that is done:
-- `imprimirDiccionario` of terminateActions.c reads its variables, then the PCB goes to the kernel.
use personal_copy_tp.Common.{
  ℕ, zero, suc, ◌+◌, ◌-◌, ◌*◌, ◌≤◌, ◌≡◌, refl, ap, sym, subst, ◌∙◌, List, [], ◌∷◌, ◌++◌, Bool,
  false, true, some, arith, All, Bool-cases, inl, inr, decode_int, read_bytes, Memory, int_add,
  int_sub,
}
use personal_copy_tp.Sockets.{Paquete}
use personal_copy_tp.Sockets.Paquetes.{paquete}
use personal_copy_tp.Umv.Estado.{Segmento}
use personal_copy_tp.Umv.Servidor.{tras_leer}
use personal_copy_tp.Umv.Servidor.Escrituras.{cada_cpu-leer}
use personal_copy_tp.Kernel.Mensajes.{unserialize_pcb}
use personal_copy_tp.Kernel.Mensajes.Pcbs.{EsPcb, unserialize_pcb_lem}
use personal_copy_tp.Cpu.Paquetes.{paquete_leer_umv_lem}
use personal_copy_tp.Cpu.Primitivas.{
  Cpu, Efecto, Estado, normal, end_process, vale, ◌>>=◌, pila, recibir_respuesta, cerrar_proceso,
  codigo_de_fin, datos_de_fin, codificar_pcb,
}
use personal_copy_tp.Cpu.Primitivas.Llamadas.{
  solicitar_algo_umv, imprimir_variable, imprimir_variables, vigentes, incluye, terminar_en,
  terminar_proceso,
}
use personal_copy_tp.Cpu.Primitivas.Llamadas.Pila.{EnSegmento, memoria, tope, leer-en}
use personal_copy_tp.Cpu.Primitivas.Llamadas.Diccionario.{variables_en}
use personal_copy_tp.Cpu.Primitivas.Llamadas.Contexto.{Coherente}
use personal_copy_tp.Cpu.Primitivas.Sistema.Envios.{codificar_pcb-append}

decode_int-read_bytes : (m : Memory) (p : ℕ) → (v : ℕ) × (decode_int (read_bytes m p 4) ≡ some v)
unfolding decode_int read_bytes
decode_int-read_bytes m p = (_, refl)

-- The name of a variable at `d`, and its value behind it, lie in the stack segment.
abbrev EnPila : Cpu → Segmento → ℕ → Type 0
EnPila c s d = ((pila c).base ≤ d) × (d + 5 ≤ (pila c).base + s.tamano_segmento)

module _ (c : Cpu) (s : Segmento) (en : EnSegmento c s) where
  imprimir_variable-hecho : (d : ℕ) → EnPila c s d → imprimir_variable c d ≡ vale c tt
  unfolding imprimir_variable solicitar_algo_umv recibir_respuesta
  imprimir_variable-hecho d h =
      let base = (pila c).base in
      let off = int_sub (int_add d 1) base in
      let at : off ≡ d + 1 - base = omega (arith, h.0, h.1, en.base_int) in
      let read =
        leer-en c.hilo.umv base off c.hilo.pid_proceso_activo s 4 en.hallado en.tamano_int
          en.direccionable (omega (arith, at, h.0, h.1)) in
      let answer =
        cada_cpu-leer c.hilo base off (omega (arith, en.base_int)) (omega arith) 4 [] (omega arith)
        ∙ ap (tras_leer c.hilo 4) read in
      let (v, value) = decode_int-read_bytes (memoria c) (s.direccion_real + off) in
      rw (paquete_leer_umv_lem base off 4, solicitar_algo_umv, answer, value) refl

  imprimir_variables-hecho :
      (ds : List ℕ) → All (EnPila c s) ds → imprimir_variables ds c ≡ vale c tt
  unfolding imprimir_variables
  imprimir_variables-hecho [] h = refl
  imprimir_variables-hecho (d ∷ ds) h =
      rw (imprimir_variable-hecho d h.0) (imprimir_variables-hecho ds h.1)

-- The variables of a context that ends inside the segment lie in it.
vigentes-EnPila :
    (c : Cpu) (s : Segmento) (m : Memory) (p sp n : ℕ) (vistos : List ℕ)
    → (pila c).base ≤ sp
    → sp + n * 5 ≤ (pila c).base + s.tamano_segmento
    → All (EnPila c s) (vigentes vistos (variables_en m p sp n))
unfolding vigentes
vigentes-EnPila c s m p sp zero vistos lo hi = tt
vigentes-EnPila c s m p sp (suc n) vistos lo hi =
    let nombre = m (p + n * 5) in
    let rest = vigentes-EnPila c s m p sp n (nombre ∷ vistos) lo (omega arith) in
    elim (Bool-cases (incluye nombre vistos)) [
      | inl visto ↦ rw visto rest
      | inr nuevo ↦ rw nuevo ((omega arith, omega arith), rest)
    ]

-- conitos_protocol.h
abbrev pub cpu_pcp_fin_quantum : ℕ
cpu_pcp_fin_quantum = 1

abbrev pub cpu_pcp_fin_proceso : ℕ
cpu_pcp_fin_proceso = 4

-- The state of a process that is done, or whose quantum is over, and the code of the protocol for it.
abbrev pub estado_final : Bool → Estado
estado_final true = end_process
estado_final false = normal

abbrev pub aviso_final : Bool → ℕ
aviso_final true = cpu_pcp_fin_proceso
aviso_final false = cpu_pcp_fin_quantum

terminar_en-final :
    (hecho : Bool) (c : Cpu) (extra : List ℕ)
    → imprimir_variables (vigentes [] c.variables) c ≡ vale c tt
    → terminar_en (estado_final hecho) c extra ≡ cerrar_proceso c extra
terminar_en-final true c extra e = ap (λ (x : Efecto _). x >>= λ d _. cerrar_proceso d extra) e
terminar_en-final false c extra e = ap (λ (x : Efecto _). x >>= λ d _. cerrar_proceso d extra) e

codigo_de_fin-final : (hecho : Bool) → codigo_de_fin (estado_final hecho) ≡ some (aviso_final hecho)
unfolding codigo_de_fin
codigo_de_fin-final true = refl
codigo_de_fin-final false = refl

datos_de_fin-final : (hecho : Bool) (extra : List ℕ) → datos_de_fin (estado_final hecho) extra ≡ []
unfolding datos_de_fin
datos_de_fin-final true extra = refl
datos_de_fin-final false extra = refl

-- A process that is done, or whose quantum is over, and whose dictionary agrees with the stack, ends in one
-- packet to the kernel, with the code CPU_PCP_FIN_PROCESO or CPU_PCP_FIN_QUANTUM, from which the kernel reads
-- its PCB; the reads of its variables are all granted and leave the memory server as it was, and the process
-- is no more active.
pub terminar_proceso-unserialize_pcb :
    (c : Cpu) (s : Segmento) (hecho : Bool) (extra : List ℕ)
    → Coherente c s
    → c.estado ≡ estado_final hecho
    → EsPcb c.current_pcb
    → (p : Paquete) × (terminar_proceso c extra
        ≡ vale
            (record c { proceso_activo = false; variables = []; al_kernel = c.al_kernel ++ p ∷ [] })
            tt)
      × (p.codigo_operacion ≡ aviso_final hecho)
      × (unserialize_pcb p.datos ≡ some c.current_pcb)
unfolding terminar_proceso cerrar_proceso
terminar_proceso-unserialize_pcb c s hecho extra k e h =
    let inside : All (EnPila c s) (vigentes [] c.variables) =
      subst (λ xs. All (EnPila c s) (vigentes [] xs)) (sym k.diccionario)
        (vigentes-EnPila c s (memoria c) (tope c s) (pila c).stack_pointer (pila c).context_size []
          k.en.base_le k.dentro) in
    let code : codigo_de_fin c.estado ≡ some (aviso_final hecho) =
      ap codigo_de_fin e ∙ codigo_de_fin-final hecho in
    let no_data : datos_de_fin c.estado extra ≡ [] =
      ap (λ x. datos_de_fin x extra) e ∙ datos_de_fin-final hecho extra in
    (
      paquete (aviso_final hecho) (codificar_pcb c.current_pcb ++ []),
      ap (λ x. terminar_en x c extra) e
          ∙ terminar_en-final hecho c extra (imprimir_variables-hecho c s k.en _ inside)
          ∙ rw (code, cerrar_proceso, no_data) refl,
      refl,
      ap unserialize_pcb (codificar_pcb-append c.current_pcb [])
          ∙ unserialize_pcb_lem c.current_pcb [] h,
    )
