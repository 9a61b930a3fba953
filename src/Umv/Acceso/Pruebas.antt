-- ===== src/Umv/Acceso/Pruebas.antt =====
-- The theorems on `leerBytes` and `pegarBytes` at small tables.
use personal_copy_tp.Common.{
  ℕ, ◌-◌, ◌^◌, ◌≡◌, refl, List, [], ◌∷◌, arith, inr, some, read_bytes, write_bytes,
}
use personal_copy_tp.Umv.Estado.{Umv}
use personal_copy_tp.Umv.Ejemplos.{dos, dos-IsValid, seg}
use personal_copy_tp.Umv.Acceso.{hecho, denegado, leer_bytes, pegar_bytes, buscar_segmento}
use personal_copy_tp.Umv.Acceso.Aislamiento.{leer-pegar_bytes_otro, leer_bytes_offset_negativo}

leer_bytes_dentro : leer_bytes dos 600 2 3 2 ≡ hecho (18 ∷ 19 ∷ 20 ∷ [])
unfolding leer_bytes buscar_segmento read_bytes
leer_bytes_dentro = refl

leer_bytes_fuera : leer_bytes dos 600 28 3 2 ≡ denegado
unfolding leer_bytes buscar_segmento read_bytes
leer_bytes_fuera = refl

leer_bytes_ajeno : leer_bytes dos 600 2 3 1 ≡ denegado
unfolding leer_bytes buscar_segmento read_bytes
leer_bytes_ajeno = refl

abbrev bytes : List ℕ
bytes = 5 ∷ 6 ∷ []

abbrev escrita : Umv
escrita = record dos { memoria = write_bytes dos.memoria 1044 bytes }

escrita_lem : pegar_bytes dos bytes 600 4 2 2 ≡ hecho escrita
unfolding pegar_bytes buscar_segmento
escrita_lem = refl

leer-pegar_bytes_otro_example : leer_bytes escrita 500 0 40 1 ≡ leer_bytes dos 500 0 40 1
leer-pegar_bytes_otro_example =
    leer-pegar_bytes_otro dos bytes 600 4 2 500 0 40 1 dos-IsValid (omega arith) (omega arith)
      (inr (omega arith)) escrita_lem

found : buscar_segmento dos.lista_de_segmentos 600 2 ≡ some (seg 1 2 600 30 1040)
unfolding buscar_segmento
found = refl

leer_bytes_offset_negativo_example :
    leer_bytes dos 600 (2 ^ 32 - 8) 3 2 ≡ hecho (read_bytes dos.memoria (1040 - 8) 3)
leer_bytes_offset_negativo_example =
    leer_bytes_offset_negativo dos 600 3 2 8 dos-IsValid found (omega arith) (omega arith)
      (omega arith) (omega arith)
