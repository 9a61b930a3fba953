-- ===== src/Kernel/Plp/Admision.antt =====
-- `atenderProgramaEntrante` of proyectoKernel/plp.c: a program sends its script, the kernel asks the memory
-- server for four segments, and either gives them back or fills them and queues the new process. The rounds
-- of `hiloKernel` follow one another here, with none of another thread between them.
pub mod Escrituras
pub mod Repartido
pub mod Resultado
mod Pruebas
use personal_copy_tp.Common.{
  ℕ, ◌+◌, ◌*◌, ◌%◌, ◌==◌, List, [], ◌∷◌, ◌++◌, Option, none, some, if◌then◌else◌, length,
  encode_int, int_mod, minus_one,
}
use personal_copy_tp.Commons.{ListOps}
use personal_copy_tp.Sockets.{Paquete, pedir_paquete, copiar}
use personal_copy_tp.Sockets.Paquetes.{paquete}
use personal_copy_tp.Umv.Estado.{Segmento, Umv}
use personal_copy_tp.Umv.Servidor.{
  Vuelta, listo, termina, caida, espera, hilo_kernel, kernel_escribir_segmento_umv,
  kernel_destruir_segmentos_programa,
}
use personal_copy_tp.Umv.Servidor.Campos.{mensaje}
use personal_copy_tp.Kernel.{Pcb, NodoProceso, Kernel}
use personal_copy_tp.Kernel.Rondas.{handshake, encolar_pcb}
use personal_copy_tp.Kernel.Mensajes.{◌>>=◌, c_string}
use personal_copy_tp.Kernel.Plp.{plp_pedir_segmento, paquete_escribir_indice}

-- conitos_protocol.h
abbrev pub enviar_script : ℕ
enviar_script = 3

abbrev pub plp_programa_confirmar_coneccion : ℕ
plp_programa_confirmar_coneccion = 1

abbrev pub plp_programa_no_se_pudo_crear : ℕ
plp_programa_no_se_pudo_crear = 2

abbrev pub plp_programa_encolado : ℕ
plp_programa_encolado = 3

-- What the code reads of a `t_metadata_program`, which the parser makes.
pub record Metadata : Type 0 where
  pub instruccion_inicio : ℕ
  pub instrucciones_size : ℕ
  pub instrucciones_serializado : List ℕ
  pub etiquetas_size : ℕ
  pub etiquetas : List ℕ
  pub cantidad_de_funciones : ℕ
  pub cantidad_de_etiquetas : ℕ

abbrev pub peso_de : Metadata → ℕ
peso_de m =
    (m.cantidad_de_funciones * 3 + m.cantidad_de_etiquetas * 5 + m.instrucciones_size) % int_mod

-- An entry of the index is a `t_intructions`, of 8 bytes.
abbrev pub tamanio_indice : Metadata → ℕ
tamanio_indice m = m.instrucciones_size * 8 % int_mod

abbrev pub generar_pid : ℕ → ℕ
generar_pid pid = (pid + 1) % int_mod

-- The addresses that the four requests return, and what is left of `error` and of the memory server.
pub record Pedidos : Type 0 where
  pub codigo : Option ℕ
  pub stack : Option ℕ
  pub etiquetas : Option ℕ
  pub indice : Option ℕ
  pub error : ℕ
  pub umv : Umv

-- The packet of the code, of which `programa` holds the final zero.
pub paquete_codigo : ℕ → ℕ → List ℕ → Option Paquete
paquete_codigo pid code_segment programa =
    pedir_paquete (mensaje pid (length programa) code_segment programa) kernel_escribir_segmento_umv
      (12 + length programa)

-- The packet of the labels is one byte longer than they are: `sobra` is that byte of the buffer.
pub paquete_etiquetas : ℕ → ℕ → ℕ → Metadata → Option Paquete
paquete_etiquetas sobra pid indice_etiquetas m = do
  copiadas ← copiar m.etiquetas m.etiquetas_size
  pedir_paquete (mensaje pid m.etiquetas_size indice_etiquetas (copiadas ++ sobra ∷ []))
      kernel_escribir_segmento_umv (m.etiquetas_size + 1 + 12)

-- `common_receive` after a message to the memory server: `none` where no answer comes.
abbrev pub con_respuesta : Vuelta Umv → Option Umv
con_respuesta (listo v (some p)) = some v
con_respuesta (listo v none) = none
con_respuesta termina = none
con_respuesta caida = none
con_respuesta espera = none

-- A message after which the kernel waits for no answer.
abbrev pub sin_respuesta : Vuelta Umv → Option Umv
sin_respuesta (listo v r) = some v
sin_respuesta termina = none
sin_respuesta caida = none
sin_respuesta espera = none

abbrev pub pcb_nuevo : ℕ → ℕ → Metadata → ℕ → ℕ → ℕ → ℕ → Pcb
pcb_nuevo pid tamanio_pila m codigo stack etiquetas indice = record {
  pid = pid;
  code_segment = codigo;
  current_stack = record {
    size = tamanio_pila;
    base = stack;
    context_size = 0;
    stack_pointer = stack;
  };
  code_index = indice;
  indice_etiquetas = etiquetas;
  program_counter = m.instruccion_inicio;
  tamanio_indice_etiquetas = m.etiquetas_size;
}

-- The kernel and the memory server, and `*PIDActual`.
pub record Plp : Type 0 where
  pub kernel : Kernel
  pub umv : Umv
  pub pid_actual : ℕ

-- The state afterwards, and what the program has been sent.
pub record Atendido : Type 0 where
  pub plp : Plp
  pub al_programa : List Paquete

abbrev pub confirmacion : Paquete
confirmacion = paquete plp_programa_confirmar_coneccion (75 ∷ 0 ∷ [])

-- `basura i` is the uninitialised struct of the call number `i` of `crearSegmento`.
module _ (lib : ListOps Segmento) (basura : ℕ → Segmento) where
  pub pedir_segmentos : Umv → ℕ → ℕ → ℕ → Metadata → Option Pedidos
  pedir_segmentos u pid largo tamanio_pila m = do
    c ← plp_pedir_segmento lib (basura 0) (basura 1) 0 u largo pid
    s ← plp_pedir_segmento lib (basura 2) (basura 3) c.error c.umv tamanio_pila pid
    e ← plp_pedir_segmento lib (basura 4) (basura 5) s.error s.umv m.etiquetas_size pid
    i ← plp_pedir_segmento lib (basura 6) (basura 7) e.error e.umv (tamanio_indice m) pid
    some (record {
      codigo = c.base;
      stack = s.base;
      etiquetas = e.base;
      indice = i.base;
      error = i.error;
      umv = i.umv;
    })

  -- A segment of no bytes has the address -1, and nothing is written to it.
  pub escribir_en : ℕ → Option Paquete → Umv → Option Umv
  escribir_en dir p u =
      if dir == minus_one
      then some u
      else (p >>= λ q. con_respuesta (hilo_kernel lib (basura 0) (basura 1) u q))

  pub rechazar : Plp → ℕ → Umv → Option Atendido
  rechazar e pid u = do
    destruir ← pedir_paquete (encode_int pid) kernel_destruir_segmentos_programa 4
    v ← sin_respuesta (hilo_kernel lib (basura 0) (basura 1) u destruir)
    some (record {
      plp = record e { umv = v; pid_actual = pid };
      al_programa = confirmacion ∷ paquete plp_programa_no_se_pudo_crear (65 ∷ 0 ∷ []) ∷ [];
    })

  module _ (sobra : ℕ) where
    pub escribir_segmentos : Umv → ℕ → List ℕ → Metadata → ℕ → ℕ → ℕ → Option Umv
    escribir_segmentos u pid programa m codigo indice etiquetas = do
      a ← escribir_en codigo (paquete_codigo pid codigo programa) u
      b ←
          escribir_en indice
            (paquete_escribir_indice pid (tamanio_indice m) indice m.instrucciones_serializado) a
      escribir_en etiquetas (paquete_etiquetas sobra pid etiquetas m) b

    module _ (lib' : ListOps NodoProceso) where
      pub admitir : Plp → ℕ → ℕ → List ℕ → Metadata → ℕ → Pedidos → Option Atendido
      admitir e pid tamanio_pila programa m socket q = do
        codigo ← q.codigo
        stack ← q.stack
        etiquetas ← q.etiquetas
        indice ← q.indice
        v ← escribir_segmentos q.umv pid programa m codigo indice etiquetas
        some (record {
          plp = record {
            kernel =
                encolar_pcb lib' e.kernel
                  (pcb_nuevo pid tamanio_pila m codigo stack etiquetas indice) (peso_de m) socket;
            umv = v;
            pid_actual = pid;
          };
          al_programa = confirmacion ∷ paquete plp_programa_encolado (65 ∷ 0 ∷ []) ∷ [];
        })

      pub atender_literal : (List ℕ → Metadata) → ℕ → Plp → List ℕ → ℕ → Option Atendido
      atender_literal metadata_desde_literal tamanio_pila e literal socket =
          let pid = generar_pid e.pid_actual in
          let m = metadata_desde_literal literal in
          pedir_segmentos e.umv pid (length literal + 1) tamanio_pila m >>= λ q.
          if q.error == 1
          then rechazar e pid q.umv
          else admitir e pid tamanio_pila (literal ++ 0 ∷ []) m socket q

      -- `metadata_desde_literal` is the parser's; `saludo` and `script` are the two packets of the program. A
      -- second packet that is no script is answered with a packet that has been freed: `none`.
      pub atender_programa_entrante :
          (List ℕ → Metadata) → ℕ → Plp → Paquete → Paquete → ℕ → Option Atendido
      atender_programa_entrante metadata_desde_literal tamanio_pila e saludo script socket =
          if saludo.codigo_operacion == handshake
          then if script.codigo_operacion == enviar_script
            then (c_string script.datos >>= λ literal.
                atender_literal metadata_desde_literal tamanio_pila e literal socket)
            else none
          else some (record { plp = e; al_programa = [] })
