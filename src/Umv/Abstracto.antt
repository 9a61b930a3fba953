-- ===== src/Umv/Abstracto.antt =====
-- What the memory server of proyectoUMV/umv.c promises to the processes, with no word of addresses of the
-- pool, of holes or of nodes: each process has texts of bytes, each under an address of its own.
pub mod Textos
pub mod Refinamiento
pub mod Busqueda
pub mod Altas
pub mod Acciones
mod Pruebas
use personal_copy_tp.Common.{
  ℕ, zero, suc, ◌+◌, ◌==◌, ◌&&◌, List, [], ◌∷◌, Option, none, some, if◌then◌else◌, leb, take, drop,
  length, minus_one, read_bytes,
}
use personal_copy_tp.Umv.Estado.{Segmento, Umv}
use personal_copy_tp.Umv.Acceso.{Acceso, denegado, hecho, buscar_segmento}

-- By PID and address.
abbrev pub Vista : Type 0
Vista = ℕ → ℕ → Option (List ℕ)

abbrev pub texto_de : Umv → Option Segmento → Option (List ℕ)
texto_de u none = none
texto_de u (some s) = some (read_bytes u.memoria s.direccion_real s.tamano_segmento)

-- The holes, whose owner is -1, are nobody's.
abbrev pub vista : Umv → Vista
vista u pid base =
    if pid == minus_one then none else texto_de u (buscar_segmento u.lista_de_segmentos base pid)

abbrev pub leer_texto : Option (List ℕ) → ℕ → ℕ → Acceso (List ℕ)
leer_texto none offset cantidad = denegado
leer_texto (some bytes) offset cantidad =
    if leb (offset + cantidad) (length bytes)
    then hecho (take cantidad (drop offset bytes))
    else denegado

pub reemplazar : List ℕ → ℕ → List ℕ → List ℕ
reemplazar [] offset nuevos = []
reemplazar (v ∷ viejos) zero [] = v ∷ viejos
reemplazar (v ∷ viejos) zero (n ∷ nuevos) = n ∷ reemplazar viejos zero nuevos
reemplazar (v ∷ viejos) (suc offset) nuevos = v ∷ reemplazar viejos offset nuevos

abbrev pub pegar_texto : Option (List ℕ) → List ℕ → ℕ → Acceso (List ℕ)
pegar_texto none nuevos offset = denegado
pegar_texto (some bytes) nuevos offset =
    if leb (offset + length nuevos) (length bytes)
    then hecho (reemplazar bytes offset nuevos)
    else denegado

abbrev pub cambiar : Vista → ℕ → ℕ → List ℕ → Vista
cambiar w pid base texto p b = if p == pid && b == base then some texto else w p b

abbrev pub quitar : Vista → ℕ → Vista
quitar w pid p b = if p == pid then none else w p b
