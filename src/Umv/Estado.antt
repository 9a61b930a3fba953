-- ===== src/Umv/Estado.antt =====
-- proyectoUMV/umv.h: the segment table and the globals of the memory server, and what umv.c does
-- with a single node of the table.
use personal_copy_tp.Common.{
  ℕ, ◌==◌, Bool, true, false, List, [], ◌∷◌, Option, none, some, if◌then◌else◌, minus_one, int_add,
  ltb, Memory,
}

pub record Segmento : Type 0 where
  pub id_segmento : ℕ
  pub process_id : ℕ
  pub direccion_virtual : ℕ
  pub tamano_segmento : ℕ
  pub direccion_real : ℕ

pub record Configuracion : Type 0 where
  pub cantidad_bytes_malloc : ℕ
  pub retardo : ℕ
  pub inicio_malloc : ℕ

-- The memory after a `memcpy` between two ranges that meet: of the memory before, the destination, the origin
-- and the length. C leaves it open.
abbrev pub Solape : Type 0
Solape = Memory → ℕ → ℕ → ℕ → Memory

-- `aleatorios` are the values that the coming calls of `rand` return.
pub record Umv : Type 0 where
  pub configuracion : Configuracion
  pub open configuracion use *
  pub lista_de_segmentos : List Segmento
  pub algoritmo_activo : ℕ
  pub id_siguiente : ℕ
  pub memoria : Memory
  pub aleatorios : List ℕ
  pub solapado : Solape

-- The test of a hole by `tamanoUsadoDelMalloc` and `eliminaVacios`.
abbrev pub esta_libre : Segmento → Bool
esta_libre s = s.process_id == minus_one

unfoldable pub auxiliar_para_ordenar : Segmento → Segmento → Bool
auxiliar_para_ordenar a b = ltb a.direccion_real b.direccion_real

unfoldable pub tamano_usado_desde : ℕ → List Segmento → ℕ
tamano_usado_desde tamano [] = tamano
tamano_usado_desde tamano (s ∷ xs) =
    tamano_usado_desde (if esta_libre s then tamano else int_add tamano s.tamano_segmento) xs

unfoldable pub tamano_usado_del_malloc : List Segmento → ℕ
unfolding tamano_usado_desde
tamano_usado_del_malloc xs = tamano_usado_desde 0 xs

unfoldable pub dir_vir_esta_en_umv : List Segmento → ℕ → Bool
dir_vir_esta_en_umv [] numero = false
dir_vir_esta_en_umv (s ∷ xs) numero =
    if s.direccion_virtual == numero then true else dir_vir_esta_en_umv xs numero

pub virtual_a_real : List Segmento → ℕ → Option ℕ
virtual_a_real [] base = none
virtual_a_real (s ∷ xs) base =
    if s.direccion_virtual == base then some s.direccion_real else virtual_a_real xs base

unfoldable pub cambiar_algoritmo : Umv → ℕ → Umv
cambiar_algoritmo u nuevo =
    if u.algoritmo_activo == nuevo
    then u
    else if nuevo == 1
    then record u { algoritmo_activo = 1 }
    else if nuevo == 2
    then record u { algoritmo_activo = 2 }
    else u
