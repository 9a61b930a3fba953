-- ===== src/Cpu/Ciclo/Pruebas.antt =====
-- The theorems on the loop of the processor at a process of one instruction.
use personal_copy_tp.Common.{
  ℕ, ◌==◌, ◌≤◌, ◌≡◌, ◌≢◌, ◌⊎◌, inr, refl, List, arith, if◌then◌else◌, encode_int, decode_int,
  read_bytes,
}
use personal_copy_tp.Sockets.{pedir_paquete}
use personal_copy_tp.Umv.Acceso.{buscar_segmento, leer_bytes}
use personal_copy_tp.Umv.Ejemplos.{dos}
use personal_copy_tp.Umv.Servidor.{cada_cpu, cpu_leer}
use personal_copy_tp.Cpu.Paquetes.{paquete_leer_umv}
use personal_copy_tp.Cpu.Primitivas.{Cpu, Efecto, vale, normal, end_process, recibir_respuesta}
use personal_copy_tp.Cpu.Primitivas.Llamadas.{con_pc, solicitar_algo_umv}
use personal_copy_tp.Cpu.Primitivas.Pruebas.{cpu}
use personal_copy_tp.Cpu.Ciclo.{ejecutar_instruccion, ejecutar_quantum, con_estado}
use personal_copy_tp.Cpu.Ciclo.Quantum.{
  Corre, quieto, una, ejecutar_quantum-Corre, Corre-ejecutar_quantum,
}

-- A parser that runs every line as the end of the process.
abbrev analizador : List ℕ → Cpu → Efecto (Unit {0})
analizador texto c = vale (con_estado c end_process) tt

-- The code and its index in one segment: an instruction of three bytes, eight bytes behind the start.
abbrev con_codigo : Cpu
con_codigo = record (cpu 0) {
  current_pcb = record ((cpu 0).current_pcb) { code_index = 600; code_segment = 600 };
  hilo = record {
    umv = record dos { memoria = λ q. if q == 1040 then 8 else if q == 1044 then 3 else 0 };
    pid_proceso_activo = 2;
  };
}

abbrev terminado : Cpu
terminado = con_pc (con_estado con_codigo end_process) 1

una_lem : ejecutar_instruccion analizador con_codigo ≡ vale terminado tt
unfolding ejecutar_instruccion solicitar_algo_umv recibir_respuesta cada_cpu cpu_leer
    paquete_leer_umv pedir_paquete buscar_segmento leer_bytes encode_int decode_int read_bytes
una_lem = refl

corrida : Corre analizador 1 con_codigo terminado
corrida = una refl una_lem quieto

Corre-ejecutar_quantum_example : ejecutar_quantum analizador 3 con_codigo ≡ vale terminado tt
Corre-ejecutar_quantum_example =
    Corre-ejecutar_quantum analizador 3 corrida (omega arith) (inr (λ e. cc))

ejecutar_quantum-Corre_example :
    (n : ℕ) × (n ≤ 3) × Corre analizador n con_codigo terminado × ((n ≡ 3) ⊎ (end_process ≢ normal))
ejecutar_quantum-Corre_example =
    ejecutar_quantum-Corre analizador 3 con_codigo
      (Corre-ejecutar_quantum analizador 3 corrida (omega arith) (inr (λ e. cc)))
