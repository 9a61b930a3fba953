-- ===== src/Umv/Acceso.antt =====
-- `leerBytes` and `pegarBytes` of proyectoUMV/umv.c: a process reaches a segment by its virtual
-- address and its own PID.
pub mod Limites
pub mod Aislamiento
mod Pruebas
use personal_copy_tp.Common.{
  ℕ, ◌==◌, ◌&&◌, Bool, List, [], ◌∷◌, Option, none, some, if◌then◌else◌, int_add, int_leb, leb, ltb,
  ptr_add, ◌^◌, read_bytes, write_bytes, length, take,
}
use personal_copy_tp.Umv.Estado.{Segmento, Umv}

-- `denegado` is the code's refusal (a null buffer, or 0). `fallo` is a `memcpy` of a length that is
-- negative as an `int`, or longer than the source buffer: the process does not survive it.
pub data Acceso (A : Type 0) : Type 0 where
  denegado : Acceso A
  fallo : Acceso A
  hecho : A → Acceso A

unfoldable pub buscar_segmento : List Segmento → ℕ → ℕ → Option Segmento
buscar_segmento [] base pid = none
buscar_segmento (s ∷ xs) base pid =
    if s.direccion_virtual == base && s.process_id == pid
    then some s
    else buscar_segmento xs base pid

abbrev pub entra : Segmento → ℕ → ℕ → Bool
entra s cantidad offset = int_leb (int_add cantidad offset) s.tamano_segmento

unfoldable pub leer_bytes : Umv → ℕ → ℕ → ℕ → ℕ → Acceso (List ℕ)
leer_bytes u base offset cantidad pid = elim (buscar_segmento u.lista_de_segmentos base pid) [
  | none ↦ denegado
  | some s ↦
      if entra s cantidad offset
      then if ltb cantidad (2 ^ 31)
        then hecho (read_bytes u.memoria (ptr_add s.direccion_real offset) cantidad)
        else fallo
      else denegado
]

unfoldable pub pegar_bytes : Umv → List ℕ → ℕ → ℕ → ℕ → ℕ → Acceso Umv
pegar_bytes u bytes base offset cantidad pid =
    elim (buscar_segmento u.lista_de_segmentos base pid) [
      | none ↦ denegado
      | some s ↦
          if entra s cantidad offset
          then if leb cantidad (length bytes)
            then hecho (record u {
              memoria =
                  write_bytes u.memoria (ptr_add s.direccion_real offset) (take cantidad bytes);
            })
            else fallo
          else denegado
    ]
