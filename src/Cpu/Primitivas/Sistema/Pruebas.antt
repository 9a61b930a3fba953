-- ===== src/Cpu/Primitivas/Sistema/Pruebas.antt =====
-- The theorems on the system calls at a small process.
use personal_copy_tp.Common.{ℕ, ◌≡◌, ◌≢◌, refl, List, [], ◌∷◌, some, arith, encode_int}
use personal_copy_tp.Commons.Strings.{string_ops}
use personal_copy_tp.Sockets.{Paquete}
use personal_copy_tp.Sockets.Paquetes.{paquete}
use personal_copy_tp.Kernel.{mismo_nombre}
use personal_copy_tp.Kernel.Mensajes.{
  in_out_datos, buscar_compartida, shared_variable_request, shared_variable_assign, pcp_cpu_ok,
}
use personal_copy_tp.Kernel.Mensajes.Pcbs.{EsPcb}
use personal_copy_tp.Cpu.Primitivas.{Cpu, vale, entrada_salida}
use personal_copy_tp.Cpu.Primitivas.Textos.{isalnum}
use personal_copy_tp.Cpu.Primitivas.Textos.Corte.{remove_new_line_lem}
use personal_copy_tp.Cpu.Primitivas.Pruebas.{cpu}
use personal_copy_tp.Cpu.Primitivas.Sistema.{
  enviar_al_kernel, entrada_salida_en, asignar_valor_compartida, obtener_valor_compartida,
}
use personal_copy_tp.Cpu.Primitivas.Sistema.Envios.{paquete_io, entrada_salida-in_out_datos}
use personal_copy_tp.Cpu.Primitivas.Sistema.Compartidas.{asignar-obtener_valor_compartida}

pub cpu-EsPcb : EsPcb (cpu 2).current_pcb
cpu-EsPcb = omega arith

-- A device "d" for 50 units of time.
entrada_salida-in_out_datos_example :
    (d : Cpu) × (entrada_salida_en (cpu 2) (100 ∷ []) 50 ≡ vale d tt)
    × (d.al_kernel ≡ paquete_io (cpu 2) (100 ∷ []) 50 ∷ [])
    × (d.estado ≡ entrada_salida)
    × (in_out_datos (paquete_io (cpu 2) (100 ∷ []) 50)
        ≡ some (
          record ((cpu 2).current_pcb) { program_counter = 1 },
          record { nombre = 100 ∷ 0 ∷ []; tiempo = 50 },
        ))
entrada_salida-in_out_datos_example =
    entrada_salida-in_out_datos (cpu 2) (100 ∷ []) 50 refl cpu-EsPcb (omega arith)

a-ne-b : ◌≢◌ {A = List ℕ} (97 ∷ []) (98 ∷ [])
a-ne-b e = ground arith

abbrev compartidas : List (List ℕ × ℕ)
compartidas = (97 ∷ [], 1) ∷ (98 ∷ [], 2) ∷ []

abbrev con_respuesta : Cpu
con_respuesta = record (cpu 0) { del_kernel = paquete pcp_cpu_ok (encode_int 9) ∷ [] }

asignar-obtener_valor_compartida_example :
    (p q : Paquete) × (despues : List (List ℕ × ℕ)) × (asignar_valor_compartida string_ops
        (cpu 2)
        (98 ∷ 10 ∷ [])
        9
      ≡ vale (enviar_al_kernel (cpu 2) p) 9)
    × (shared_variable_assign compartidas p ≡ some despues)
    × (buscar_compartida (97 ∷ []) despues ≡ buscar_compartida (97 ∷ []) compartidas)
    × (shared_variable_request despues q ≡ some (paquete pcp_cpu_ok (encode_int 9)))
    × (obtener_valor_compartida string_ops con_respuesta (98 ∷ 10 ∷ [])
        ≡ vale (record (enviar_al_kernel con_respuesta q) { del_kernel = [] }) 9)
unfolding isalnum buscar_compartida mismo_nombre
asignar-obtener_valor_compartida_example =
    asignar-obtener_valor_compartida string_ops (cpu 2) con_respuesta (98 ∷ 10 ∷ []) (98 ∷ [])
      (97 ∷ []) 9 compartidas [] refl refl
      (remove_new_line_lem string_ops [] 98 (10 ∷ []) refl (refl, tt))
      ((λ e. absurd (omega arith)), tt) a-ne-b (omega arith) refl refl
