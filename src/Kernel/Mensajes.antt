-- ===== src/Kernel/Mensajes.antt =====
-- The messages of proyectoKernel/accionesParaCPU.c that carry data: the PCB and the device of a process,
-- the shared variables, and what a program prints. A packet that is too short, or an unknown name, which
-- the code reads through a null pointer, gives `none`.
pub mod Pcbs
use personal_copy_tp.Common.{
  ℕ, ◌-◌, ◌==◌, List, [], ◌∷◌, ◌++◌, Option, none, some, if◌then◌else◌, drop, decode_int,
  encode_int,
}
use personal_copy_tp.Sockets.{Paquete, copiar}
use personal_copy_tp.Sockets.Paquetes.{paquete}
use personal_copy_tp.Kernel.{Pcb, mismo_nombre}

infixl 5 ◌>>=◌
abbrev pub ◌>>=◌ {ℓ κ} : {A : Type ℓ} {B : Type κ} → Option A → (A → Option B) → Option B
none >>= f = none
some a >>= f = f a

abbrev pub sizeof_pcb : ℕ
sizeof_pcb = 40

abbrev pub pcp_cpu_ok : ℕ
pcp_cpu_ok = 7

abbrev pub programa_paquete_para_imprimir : ℕ
programa_paquete_para_imprimir = 1

unfoldable pub unserialize_pcb : List ℕ → Option Pcb
unserialize_pcb datos = do
  pid ← decode_int datos
  code_segment ← decode_int (drop 4 datos)
  size ← decode_int (drop 8 datos)
  base ← decode_int (drop 12 datos)
  context_size ← decode_int (drop 16 datos)
  stack_pointer ← decode_int (drop 20 datos)
  code_index ← decode_int (drop 24 datos)
  indice_etiquetas ← decode_int (drop 28 datos)
  program_counter ← decode_int (drop 32 datos)
  tamanio_indice_etiquetas ← decode_int (drop 36 datos)
  some (record {
    pid = pid;
    code_segment = code_segment;
    current_stack = record {
      size = size;
      base = base;
      context_size = context_size;
      stack_pointer = stack_pointer;
    };
    code_index = code_index;
    indice_etiquetas = indice_etiquetas;
    program_counter = program_counter;
    tamanio_indice_etiquetas = tamanio_indice_etiquetas;
  })

-- `t_io`: the bytes of the name, with its final zero, and the time.
pub record Io : Type 0 where
  pub nombre : List ℕ
  pub tiempo : ℕ

-- `size` is not below 4 in the calls: the name would get a length of almost 2 ^ 32.
unfoldable pub unserialize_io : List ℕ → ℕ → Option Io
unserialize_io datos size = do
  nombre ← copiar datos (size - 4)
  tiempo ← decode_int (drop (size - 4) datos)
  some (record { nombre = nombre; tiempo = tiempo })

-- What `inOut` takes out of its packet.
unfoldable pub in_out_datos : Paquete → Option (Pcb × Io)
in_out_datos p = do
  pcb ← unserialize_pcb p.datos
  io ← unserialize_io (drop sizeof_pcb p.datos) (p.data_size - sizeof_pcb)
  some (pcb, io)

-- A C string: the bytes up to its zero; `none` where the buffer has no zero.
unfoldable pub c_string : List ℕ → Option (List ℕ)
c_string [] = none
c_string (b ∷ bytes) =
    let resto = c_string bytes in if b == 0 then some [] else (resto >>= λ texto. some (b ∷ texto))

-- The dictionary of the shared variables.
unfoldable pub buscar_compartida : List ℕ → List (List ℕ × ℕ) → Option ℕ
buscar_compartida nombre [] = none
buscar_compartida nombre ((n, valor) ∷ resto) =
    if mismo_nombre n nombre then some valor else buscar_compartida nombre resto

unfoldable pub poner_compartida : List ℕ → ℕ → List (List ℕ × ℕ) → List (List ℕ × ℕ)
poner_compartida nombre nuevo [] = []
poner_compartida nombre nuevo ((n, valor) ∷ resto) =
    if mismo_nombre n nombre
    then (n, nuevo) ∷ resto
    else (n, valor) ∷ poner_compartida nombre nuevo resto

unfoldable pub shared_variable_request : List (List ℕ × ℕ) → Paquete → Option Paquete
shared_variable_request variables p = do
  nombre ← c_string p.datos
  valor ← buscar_compartida nombre variables
  some (paquete pcp_cpu_ok (encode_int valor))

unfoldable pub shared_variable_assign : List (List ℕ × ℕ) → Paquete → Option (List (List ℕ × ℕ))
shared_variable_assign variables p = do
  copiado ← copiar p.datos (p.data_size - 4)
  valor ← decode_int (drop (p.data_size - 4) p.datos)
  nombre ← c_string copiado
  viejo ← buscar_compartida nombre variables
  some (poner_compartida nombre valor variables)

-- What goes to the program's socket.
pub print_text : Paquete → Option Paquete
print_text p = do
  texto ← copiar p.datos p.data_size
  some (paquete programa_paquete_para_imprimir texto)

-- `itoa` is `string_itoa` of the commons library.
pub print_variable : (ℕ → List ℕ) → Paquete → Option Paquete
print_variable itoa p = do
  valor ← decode_int p.datos
  some (paquete programa_paquete_para_imprimir (itoa valor))

-- The PCB and the text of an exception, the text as it goes to the program.
unfoldable pub exception_datos : Paquete → Option (Pcb × Paquete)
exception_datos p = do
  pcb ← unserialize_pcb p.datos
  copiado ← copiar (drop sizeof_pcb p.datos) (p.data_size - sizeof_pcb)
  texto ← c_string copiado
  some (pcb, paquete programa_paquete_para_imprimir (texto ++ 0 ∷ []))
