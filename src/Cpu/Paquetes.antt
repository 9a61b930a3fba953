-- ===== src/Cpu/Paquetes.antt =====
-- proyectoCPU/decoracionDePaquetesCPU.c: the packets to the memory server.
use personal_copy_tp.Common.{
  ℕ, ◌^◌, ◌<◌, ◌≡◌, refl, ap, sym, ◌∙◌, List, [], ◌++◌, Option, some, none, length, encode_int,
  arith,
}
use mathlib.Core.List.{append-nil}
use personal_copy_tp.Sockets.{Paquete, pedir_paquete, aniadir_al_paquete}
use personal_copy_tp.Sockets.Paquetes.{paquete, pedir_paquete_lem, aniadir_al_paquete_lem}
use personal_copy_tp.Umv.Servidor.{umv_mensaje_cpu_escribir, umv_mensaje_cpu_leer}
use personal_copy_tp.Umv.Servidor.Campos.{mensaje}

-- `t_direccion`: three `int`s.
abbrev pub direccion : ℕ → ℕ → ℕ → List ℕ
direccion base offset tamanio = encode_int base ++ encode_int offset ++ encode_int tamanio

pub paquete_escribir_umv : ℕ → ℕ → ℕ → List ℕ → Option Paquete
paquete_escribir_umv base offset data_size datos =
    elim (pedir_paquete (direccion base offset data_size) umv_mensaje_cpu_escribir 12) [
      | none ↦ none
      | some p ↦ aniadir_al_paquete p datos data_size
    ]

unfoldable pub paquete_leer_umv : ℕ → ℕ → ℕ → Option Paquete
paquete_leer_umv base offset tamanio =
    pedir_paquete (direccion base offset tamanio) umv_mensaje_cpu_leer 12

length-direccion : (base offset tamanio : ℕ) → length (direccion base offset tamanio) ≡ 12
unfolding encode_int
length-direccion base offset tamanio = refl

direccion-append :
    (base offset tamanio : ℕ) (bytes : List ℕ)
    → direccion base offset tamanio ++ bytes ≡ mensaje base offset tamanio bytes
unfolding encode_int
direccion-append base offset tamanio bytes = refl

pedir-direccion :
    (base offset tamanio codigo : ℕ)
    → pedir_paquete (direccion base offset tamanio) codigo 12
      ≡ some (paquete codigo (direccion base offset tamanio))
pedir-direccion base offset tamanio codigo =
    ap (pedir_paquete (direccion base offset tamanio) codigo)
      (sym (length-direccion base offset tamanio))
    ∙ pedir_paquete_lem (direccion base offset tamanio) codigo

pub paquete_leer_umv_lem :
    (base offset tamanio : ℕ)
    → paquete_leer_umv base offset tamanio
      ≡ some (paquete umv_mensaje_cpu_leer (mensaje base offset tamanio []))
unfolding paquete_leer_umv
paquete_leer_umv_lem base offset tamanio =
    pedir-direccion base offset tamanio umv_mensaje_cpu_leer
    ∙ ap (λ (d : List ℕ). some (paquete umv_mensaje_cpu_leer d))
        (sym (append-nil (direccion base offset tamanio)) ∙ direccion-append base offset tamanio [])

pub paquete_escribir_umv_lem :
    (base offset : ℕ) (bytes : List ℕ)
    → length bytes < 2 ^ 31
    → paquete_escribir_umv base offset (length bytes) bytes
      ≡ some (paquete umv_mensaje_cpu_escribir (mensaje base offset (length bytes) bytes))
unfolding paquete_escribir_umv
paquete_escribir_umv_lem base offset bytes h =
    let dir = direccion base offset (length bytes) in
    let len = length-direccion base offset (length bytes) in
    rw (pedir-direccion base offset (length bytes) umv_mensaje_cpu_escribir, paquete_escribir_umv)
      (aniadir_al_paquete_lem umv_mensaje_cpu_escribir dir bytes (omega arith)
        ∙ ap (λ (d : List ℕ). some (paquete umv_mensaje_cpu_escribir d))
            (direccion-append base offset (length bytes) bytes))
