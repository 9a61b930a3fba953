-- ===== src/Sockets/Paquetes.antt =====
-- `pedirPaquete` and `aniadirAlPaquete` of conitos-estaCoverflow/common_sockets.c: packets whose size
-- is that of their data.
use personal_copy_tp.Common.{
  ℕ, ◌+◌, ◌^◌, ◌<◌, ◌≡◌, refl, List, ◌++◌, some, length, length-append, take-append, take_all,
  arith, encode_int, int_add,
}
use personal_copy_tp.Sockets.{Paquete, copiar, pedir_paquete, aniadir_al_paquete}

abbrev pub paquete : ℕ → List ℕ → Paquete
paquete codigo bytes = record { codigo_operacion = codigo; data_size = length bytes; datos = bytes }

pub copiar_all : (bytes : List ℕ) → copiar bytes (length bytes) ≡ some bytes
copiar_all bytes = let whole = take_all (length bytes) bytes (omega arith) in ground (arith, whole)

pub copiar-prefijo : (bytes sobra : List ℕ) → copiar (bytes ++ sobra) (length bytes) ≡ some bytes
copiar-prefijo bytes sobra =
    let first = take-append bytes sobra in ground (arith, first, length-append bytes sobra)

pub length-encode_int : (n : ℕ) → length (encode_int n) ≡ 4
unfolding encode_int
length-encode_int n = refl

pub pedir_paquete_lem :
    (bytes : List ℕ) (codigo : ℕ)
    → pedir_paquete bytes codigo (length bytes) ≡ some (paquete codigo bytes)
unfolding pedir_paquete
pedir_paquete_lem bytes codigo = rw (copiar_all bytes, pedir_paquete)

pub aniadir_al_paquete_lem :
    (codigo : ℕ) (bytes extra : List ℕ)
    → length bytes + length extra < 2 ^ 32
    → aniadir_al_paquete (paquete codigo bytes) extra (length extra)
      ≡ some (paquete codigo (bytes ++ extra))
unfolding aniadir_al_paquete
aniadir_al_paquete_lem codigo bytes extra h =
    let sum : int_add (length bytes) (length extra) ≡ length (bytes ++ extra) =
      omega (arith, length-append bytes extra) in
    rw (copiar_all bytes, aniadir_al_paquete, copiar_all extra, sum)
