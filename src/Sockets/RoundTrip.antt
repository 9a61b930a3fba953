-- ===== src/Sockets/RoundTrip.antt =====
-- `common_serializer` and `common_receive` of conitos-estaCoverflow/common_sockets.c: what one side
-- serialises the other receives, except for a packet with no data.
use personal_copy_tp.Common.{
  ℕ, ◌%◌, ◌^◌, ◌<◌, ◌≡◌, refl, ap, sym, ◌∙◌, List, [], ◌∷◌, ◌++◌, some, Bool, length, take-append,
  drop-append, arith, encode_int, decode_int, extend,
}
use mathlib.Core.List.{append_assoc}
use personal_copy_tp.Sockets.{
  common_serializer, common_unserialize_header, Conexion, recv, recibido, cerrada, recibir_datos,
  recibir_cabecera, common_receive,
}
use personal_copy_tp.Sockets.Paquetes.{paquete, copiar_all}

abbrev pub cabecera : ℕ → ℕ → List ℕ
cabecera codigo size = encode_int codigo ++ encode_int size

pub common_serializer_lem :
    (codigo : ℕ) (bytes : List ℕ)
    → common_serializer (paquete codigo bytes)
      ≡ some (encode_int codigo ++ encode_int (length bytes) ++ bytes)
unfolding common_serializer
common_serializer_lem codigo bytes = rw (copiar_all bytes, common_serializer)

recv-append :
    (k : Bool) (b : ℕ) (bs rest : List ℕ)
    → recv (record { llegan = (b ∷ bs) ++ rest; cortada = k }) (length (b ∷ bs))
      ≡ (some (b ∷ bs), record { llegan = rest; cortada = k })
unfolding recv
recv-append k b bs rest =
    let a = take-append bs rest in let d = drop-append bs rest in ground (arith, a, d)

header_lem :
    (codigo size : ℕ)
    → codigo < 2 ^ 32
    → size < 2 ^ 32
    → common_unserialize_header (cabecera codigo size) ≡ some (codigo, size)
unfolding common_unserialize_header encode_int decode_int
header_lem codigo size h k = ground arith

recv_header :
    (k : Bool) (codigo size : ℕ) (rest : List ℕ)
    → recv (record { llegan = encode_int codigo ++ encode_int size ++ rest; cortada = k }) 8
      ≡ (some (cabecera codigo size), record { llegan = rest; cortada = k })
unfolding recv encode_int
recv_header k codigo size rest = refl

cabecera-cons : (codigo size : ℕ) → (b : ℕ) × (bs : List ℕ) × (cabecera codigo size ≡ b ∷ bs)
unfolding encode_int
cabecera-cons codigo size = (codigo % 256, _, refl)

recibir_cabecera_lem :
    (codigo size : ℕ) (c : Conexion)
    → codigo < 2 ^ 32
    → size < 2 ^ 32
    → recibir_cabecera (some (cabecera codigo size), c)
      ≡ recibir_datos codigo size (recv c (extend size))
unfolding recibir_cabecera
recibir_cabecera_lem codigo size c h k =
    let (b, bs, shape) = cabecera-cons codigo size in
    let e : common_unserialize_header (b ∷ bs) ≡ some (codigo, size) =
      ap common_unserialize_header (sym shape) ∙ header_lem codigo size h k in
    rw shape (rw (e, recibir_cabecera))

recibir_datos_lem :
    (codigo b : ℕ) (bs : List ℕ) (c : Conexion)
    → recibir_datos codigo (length (b ∷ bs)) (some (b ∷ bs), c)
      ≡ recibido (paquete codigo (b ∷ bs)) c
unfolding recibir_datos
recibir_datos_lem codigo b bs c = rw (copiar_all (b ∷ bs), recibir_datos)

-- A packet that carries data, of less than 2 ^ 31 bytes, is serialised, and whatever follows it on the
-- wire, and however the connection ends, the other side receives just that packet and leaves the
-- rest.
pub common_receive-serializer :
    (codigo b : ℕ) (bs rest : List ℕ) (k : Bool)
    → codigo < 2 ^ 32
    → length (b ∷ bs) < 2 ^ 31
    → (buffer : List ℕ) × (common_serializer (paquete codigo (b ∷ bs)) ≡ some buffer)
      × (common_receive (record { llegan = buffer ++ rest; cortada = k })
          ≡ recibido (paquete codigo (b ∷ bs)) (record { llegan = rest; cortada = k }))
unfolding common_receive
common_receive-serializer codigo b bs rest k h small =
    let bytes = b ∷ bs in
    let size = length bytes in
    let wide : extend size ≡ size = ground arith in
    let shape : (encode_int codigo ++ encode_int size ++ bytes) ++ rest
        ≡ encode_int codigo ++ encode_int size ++ (bytes ++ rest) =
      append_assoc (cabecera codigo size) bytes rest in
    (
      encode_int codigo ++ encode_int size ++ bytes,
      common_serializer_lem codigo bytes,
      rw (shape, recv_header k codigo size (bytes ++ rest))
          (recibir_cabecera_lem codigo size _ h (omega arith)
            ∙ rw (wide, recv-append k b bs rest) (recibir_datos_lem codigo b bs _)),
    )

recibir_datos_vacio :
    (codigo size : ℕ) (k : Bool) (rest : List ℕ)
    → recibir_datos codigo size (recv (record { llegan = rest; cortada = k }) 0) ≡ cerrada
unfolding recibir_datos recv
recibir_datos_vacio codigo size k rest = refl

-- A packet with no data is received as the end of the connection, though more bytes follow.
pub common_receive_vacio :
    (codigo : ℕ) (rest : List ℕ) (k : Bool)
    → codigo < 2 ^ 32
    → (buffer : List ℕ) × (common_serializer (paquete codigo []) ≡ some buffer)
      × (common_receive (record { llegan = buffer ++ rest; cortada = k }) ≡ cerrada)
unfolding common_receive recibir_cabecera recv encode_int
common_receive_vacio codigo rest k h = (
  encode_int codigo ++ encode_int 0 ++ [],
  common_serializer_lem codigo [],
  recibir_cabecera_lem codigo 0 _ h (omega arith) ∙ recibir_datos_vacio codigo 0 k rest,
)
