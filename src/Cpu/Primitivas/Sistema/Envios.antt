-- ===== src/Cpu/Primitivas/Sistema/Envios.antt =====
-- What proyectoCPU/primitivas.c sends and proyectoKernel/accionesParaCPU.c reads: the PCB of a process
-- that stops, its device, and the shared variables.
use personal_copy_tp.Common.{
  ℕ, ◌+◌, ◌-◌, ◌^◌, ◌<◌, ◌≡◌, refl, ap, List, [], ◌∷◌, ◌++◌, some, arith, length, length-append,
  drop, take-append, encode_int, int_add, false,
}
use personal_copy_tp.Sockets.{Paquete, copiar}
use personal_copy_tp.Sockets.Paquetes.{paquete}
use personal_copy_tp.Kernel.{Pcb}
use personal_copy_tp.Kernel.Mensajes.{unserialize_io, in_out_datos, sizeof_pcb}
use personal_copy_tp.Kernel.Mensajes.Pcbs.{EsPcb, bytes_de_pcb, paso, unserialize_pcb_lem}
use personal_copy_tp.Cpu.Primitivas.Llamadas.{con_pc, terminar_proceso}
use personal_copy_tp.Cpu.Primitivas.Variables.{value-back}
use personal_copy_tp.Cpu.Primitivas.{
  Cpu, normal, entrada_salida, vale, si_normal, cerrar_proceso, codigo_de_fin, datos_de_fin,
  codificar_pcb, change_state,
}
use personal_copy_tp.Cpu.Primitivas.Sistema.{con_cero, entrada_salida_en}

pub codificar_pcb-append :
    (p : Pcb) (extra : List ℕ) → codificar_pcb p ++ extra ≡ bytes_de_pcb p extra
unfolding codificar_pcb encode_int
codificar_pcb-append p extra = refl

-- The packet of a process that stops.
abbrev pub paquete_de_fin : Cpu → List ℕ → ℕ → Paquete
paquete_de_fin c extra codigo =
    paquete codigo (codificar_pcb c.current_pcb ++ datos_de_fin c.estado extra)

-- What a process that ends leaves of the CPU.
abbrev pub terminado : Cpu → List ℕ → ℕ → Cpu
terminado c extra codigo = record c {
  proceso_activo = false;
  variables = [];
  al_kernel = c.al_kernel ++ paquete_de_fin c extra codigo ∷ [];
}

pub drop-append : (xs ys : List ℕ) → drop (length xs) (xs ++ ys) ≡ ys
drop-append [] ys = refl
drop-append (x ∷ xs) ys = drop-append xs ys

pub copiar-append : (xs ys : List ℕ) → copiar (xs ++ ys) (length xs) ≡ some xs
copiar-append xs ys = ground (arith, take-append xs ys, length-append xs ys)

-- `unserializeIO` on a name and a time.
unserialize_io-append :
    (nombre : List ℕ) (tiempo size : ℕ)
    → size ≡ length nombre + 4
    → tiempo < 2 ^ 32
    → unserialize_io (nombre ++ encode_int tiempo) size
      ≡ some (record { nombre = nombre; tiempo = tiempo })
unfolding unserialize_io
unserialize_io-append nombre tiempo size e h =
    let at : size - 4 ≡ length nombre = omega (arith, e) in
    rw (
      at,
      copiar-append nombre (encode_int tiempo),
      drop-append nombre (encode_int tiempo),
      value-back tiempo h,
    )

-- `inOut` on a PCB, a name and a time.
in_out_datos-append :
    (p : Pcb) (nombre : List ℕ) (tiempo codigo : ℕ)
    → EsPcb p
    → tiempo < 2 ^ 32
    → in_out_datos (paquete codigo (codificar_pcb p ++ (nombre ++ encode_int tiempo)))
      ≡ some (p, record { nombre = nombre; tiempo = tiempo })
unfolding in_out_datos codificar_pcb encode_int
in_out_datos-append p nombre tiempo codigo k h =
    let extra = nombre ++ encode_int tiempo in
    let size : length (codificar_pcb p ++ extra) - sizeof_pcb ≡ length nombre + 4 =
      omega (arith, length-append nombre (encode_int tiempo)) in
    rw (unserialize_pcb_lem p extra k)
      (paso (unserialize_io extra _) _ (unserialize_io-append nombre tiempo _ size h))

-- The packet of `entradaSalida`.
abbrev pub paquete_io : Cpu → List ℕ → ℕ → Paquete
paquete_io c dispositivo tiempo = paquete 7 (
    codificar_pcb (con_pc c (int_add c.current_pcb.program_counter 1)).current_pcb
    ++ (con_cero dispositivo ++ encode_int tiempo))

-- A process in the normal state that asks for a device sends one packet, from which the kernel reads its
-- PCB, with the program counter behind the instruction, the name of the device and the time.
pub entrada_salida-in_out_datos :
    (c : Cpu) (dispositivo : List ℕ) (tiempo : ℕ)
    → c.estado ≡ normal
    → EsPcb c.current_pcb
    → tiempo < 2 ^ 32
    → (d : Cpu) × (entrada_salida_en c dispositivo tiempo ≡ vale d tt)
      × (d.al_kernel ≡ c.al_kernel ++ paquete_io c dispositivo tiempo ∷ [])
      × (d.estado ≡ entrada_salida)
      × (in_out_datos (paquete_io c dispositivo tiempo)
          ≡ some (
            (con_pc c (int_add c.current_pcb.program_counter 1)).current_pcb,
            record { nombre = con_cero dispositivo; tiempo = tiempo },
          ))
unfolding entrada_salida_en terminar_proceso cerrar_proceso codigo_de_fin datos_de_fin change_state
entrada_salida-in_out_datos c dispositivo tiempo e k h =
    let sigue = con_pc c (int_add c.current_pcb.program_counter 1) in
    let extra = con_cero dispositivo ++ encode_int tiempo in
    let k' : EsPcb sigue.current_pcb = record {
      pid = k.pid;
      code_segment = k.code_segment;
      size = k.size;
      base = k.base;
      context_size = k.context_size;
      stack_pointer = k.stack_pointer;
      code_index = k.code_index;
      indice_etiquetas = k.indice_etiquetas;
      program_counter = omega arith;
      tamanio_indice_etiquetas = k.tamanio_indice_etiquetas;
    } in
    (
      record sigue {
        estado = entrada_salida;
        proceso_activo = false;
        variables = [];
        al_kernel = c.al_kernel ++ paquete_io c dispositivo tiempo ∷ [];
      },
      ap
          (λ x.
            si_normal x c tt
              (terminar_proceso (record sigue { estado = change_state x entrada_salida }) extra))
          e,
      refl,
      refl,
      in_out_datos-append sigue.current_pcb (con_cero dispositivo) tiempo 7 k' h,
    )
