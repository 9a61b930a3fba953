-- ===== src/Sockets.antt =====
-- conitos-estaCoverflow/common_sockets.c: packets, their form on the wire, and the loops over `send`
-- and `recv`.
pub mod Paquetes
pub mod RoundTrip
pub mod Envios
mod Pruebas
use personal_copy_tp.Common.{
  ℕ, zero, suc, ◌+◌, ◌-◌, ◌==◌, List, [], ◌∷◌, ◌++◌, Option, none, some, Bool, true, false,
  if◌then◌else◌, int_add, int_sub, int_ltb, leb, length, take, drop, encode_int, decode_int, extend,
  minus_one,
}

-- `memcpy` of `n` bytes out of a buffer; `none` where it reads past the end.
abbrev pub copiar : List ℕ → ℕ → Option (List ℕ)
copiar bytes n = if leb n (length bytes) then some (take n bytes) else none

-- `data_size` is a field of its own: the copies go by it. (`data` is called `datos`.)
pub record Paquete : Type 0 where
  pub codigo_operacion : ℕ
  pub data_size : ℕ
  pub datos : List ℕ

unfoldable pub pedir_paquete : List ℕ → ℕ → ℕ → Option Paquete
pedir_paquete datos codigo size = elim (copiar datos size) [
  | none ↦ none
  | some bytes ↦ some (record { codigo_operacion = codigo; data_size = size; datos = bytes })
]

pub aniadir_al_paquete : Paquete → List ℕ → ℕ → Option Paquete
aniadir_al_paquete p extra size = elim (copiar p.datos p.data_size) [
  | none ↦ none
  | some antes ↦ elim (copiar extra size) [
    | none ↦ none
    | some despues ↦
        some (record p { data_size = int_add p.data_size size; datos = antes ++ despues })
  ]
]

-- The header is the first two fields of the struct.
unfoldable pub common_serializer : Paquete → Option (List ℕ)
common_serializer p = elim (copiar p.datos p.data_size) [
  | none ↦ none
  | some bytes ↦ some (encode_int p.codigo_operacion ++ encode_int p.data_size ++ bytes)
]

-- The code and the size; `none` where the buffer is shorter than a header.
pub common_unserialize_header : List ℕ → Option (ℕ × ℕ)
common_unserialize_header buffer = elim (decode_int buffer) [
  | none ↦ none
  | some codigo ↦ elim (decode_int (drop 4 buffer)) [
    | none ↦ none
    | some size ↦ some (codigo, size)
  ]
]

-- What the peer has sent and will send, and whether the connection then breaks or is closed.
pub record Conexion : Type 0 where
  pub llegan : List ℕ
  pub cortada : Bool

-- `recv` with `MSG_WAITALL`: `none` is -1, and no bytes are a close, or a call for 0 bytes.
pub recv : Conexion → ℕ → Option (List ℕ) × Conexion
recv c n = if n == 0 then (some [], c) else elim c.llegan [
  | [] ↦ (if c.cortada then none else some [], c)
  | b ∷ bs ↦ (some (take n (b ∷ bs)), record c { llegan = drop n (b ∷ bs) })
]

-- The two error paths of `common_receive` call `executeIfError` and return a null pointer.
-- `sin_definir` is a header cut short, whose missing bytes are those of fresh memory.
pub data Recepcion : Type 0 where
  recibido : Paquete → Conexion → Recepcion
  error : Recepcion
  cerrada : Recepcion
  sin_definir : Recepcion

pub recibir_datos : ℕ → ℕ → Option (List ℕ) × Conexion → Recepcion
recibir_datos codigo size (none, c) = error
recibir_datos codigo size (some [], c) = cerrada
recibir_datos codigo size (some (b ∷ bs), c) = elim (copiar (b ∷ bs) size) [
  | none ↦ sin_definir
  | some bytes ↦ recibido (record { codigo_operacion = codigo; data_size = size; datos = bytes }) c
]

pub recibir_cabecera : Option (List ℕ) × Conexion → Recepcion
recibir_cabecera (none, c) = error
recibir_cabecera (some [], c) = cerrada
recibir_cabecera (some (b ∷ bs), c) = elim (common_unserialize_header (b ∷ bs)) [
  | none ↦ sin_definir
  | some (codigo, size) ↦ recibir_datos codigo size (recv c (extend size))
]

pub common_receive : Conexion → Recepcion
common_receive c = recibir_cabecera (recv c 8)

-- How the loop of `common_send` ends: by its test, by `executeIfError` (which ends the thread of each
-- caller that gives one), with no further answers of `send` at hand, or by a `send` outside the
-- buffer.
pub data Envio : Type 0 where
  enviado : List ℕ → Envio
  con_error : List ℕ → Envio
  sigue : List ℕ → Envio
  fuera : List ℕ → Envio

-- The loop of `common_send`. `respuestas` are what the coming calls of `send` return: -1, or how many
-- of the bytes asked for were taken, never more than all. `salida` is what went out so far.
pub enviar_desde : List ℕ → ℕ → ℕ → List ℕ → List (Option ℕ) → Envio
enviar_desde buffer total offset salida [] = sigue salida
enviar_desde buffer total offset salida (none ∷ rs) = con_error salida
enviar_desde buffer total offset salida (some k ∷ rs) =
    let pedidos = int_sub total offset in
    let taken = if leb k pedidos then k else pedidos in
    let otra =
      enviar_desde buffer (int_sub total taken) taken (salida ++ take taken (drop offset buffer))
        rs in
    if leb (offset + pedidos) (length buffer)
    then if int_ltb taken total then otra else enviado (salida ++ take taken (drop offset buffer))
    else fuera salida

pub common_send : Paquete → List (Option ℕ) → Option Envio
common_send p respuestas = elim (common_serializer p) [
  | none ↦ none
  | some buffer ↦ some (enviar_desde buffer (int_add p.data_size 8) 0 [] respuestas)
]
