-- ===== src/Umv/Acceso/Aislamiento.antt =====
-- What one access of proyectoUMV/umv.c leaves to the next: a write is read back by its process, and
-- no other segment sees it. A negative offset breaks out of the segment.
use personal_copy_tp.Common.{
  ℕ, ◌+◌, ◌-◌, ◌^◌, ◌≤◌, ◌<◌, ◌≡◌, subst, ap, ◌⊎◌, inl, inr, ◌≢◌, List, some, true, arith, leb,
  Bool-cases, Option-cases, ptr_add, ptr_add_nonneg, read_bytes, write_bytes, read-write_bytes,
  read-write_bytes-Apart, length, take, length-take, take_all, leb→le, Memory,
}
use personal_copy_tp.Umv.Estado.{Segmento, Umv}
use personal_copy_tp.Umv.Invariante.{Separado, IsValid}
use personal_copy_tp.Umv.Acceso.{denegado, hecho, buscar_segmento, entra, leer_bytes, pegar_bytes}
use personal_copy_tp.Umv.Acceso.Limites.{
  buscar_segmento-Separado, found-EnPool, lectura, leer_bytes_lem,
}

abbrev pegado : Umv → Segmento → List ℕ → ℕ → ℕ → Umv
pegado u s bytes offset cantidad = record u {
  memoria = write_bytes u.memoria (ptr_add s.direccion_real offset) (take cantidad bytes);
}

pegar_bytes-hecho :
    (u : Umv) (bytes : List ℕ) (base offset cantidad pid : ℕ) {v : Umv}
    → pegar_bytes u bytes base offset cantidad pid ≡ hecho v
    → (s : Segmento) × (buscar_segmento u.lista_de_segmentos base pid ≡ some s)
      × (entra s cantidad offset ≡ true)
      × (cantidad ≤ length bytes)
      × (pegado u s bytes offset cantidad ≡ v)
unfolding pegar_bytes
pegar_bytes-hecho u bytes base offset cantidad pid {v} e =
    elim (Option-cases (buscar_segmento u.lista_de_segmentos base pid)) [
      | inl miss ↦ let bad : denegado ≡ hecho v = rw (miss, pegar_bytes) at e in cc
      | inr (s, hit) ↦ (s, hit, ground arith, ground arith, ground arith)
    ]

-- A write that succeeds is read back by the same process at the same place: the bytes written.
pub leer-pegar_bytes :
    (u : Umv) (bytes : List ℕ) (base offset cantidad pid : ℕ) {v : Umv}
    → cantidad < 2 ^ 31
    → pegar_bytes u bytes base offset cantidad pid ≡ hecho v
    → leer_bytes v base offset cantidad pid ≡ hecho (take cantidad bytes)
unfolding leer_bytes
leer-pegar_bytes u bytes base offset cantidad pid {v} h e =
    let (s, hit, fits, enough, done) = pegar_bytes-hecho u bytes base offset cantidad pid e in
    let back = read-write_bytes u.memoria (ptr_add s.direccion_real offset) (take cantidad bytes) in
    let whole : length (take cantidad bytes) ≡ cantidad = length-take cantidad bytes enough in
    subst (λ w. leer_bytes w base offset cantidad pid ≡ hecho (take cantidad bytes)) done
      (rw (hit, leer_bytes, fits) (ground (arith, rw whole at back)))

pub memoria-IsValid : (u : Umv) (m : Memory) → IsValid u → IsValid (record u { memoria = m })
memoria-IsValid u m i = record {
  direccionable = i.direccionable;
  cantidad_int = i.cantidad_int;
  tabla = i.tabla;
}

-- A write that succeeds keeps the table valid.
pub pegar_bytes-IsValid :
    (u : Umv) (bytes : List ℕ) (base offset cantidad pid : ℕ) {v : Umv}
    → IsValid u
    → pegar_bytes u bytes base offset cantidad pid ≡ hecho v
    → IsValid v
pegar_bytes-IsValid u bytes base offset cantidad pid i e =
    let (s, hit, fits, enough, done) = pegar_bytes-hecho u bytes base offset cantidad pid e in
    subst IsValid done (memoria-IsValid u _ i)

-- A write inside one segment, seen by a reader of a segment apart from it.
lectura-apart :
    (m : Memory) (s t : Segmento) (bytes : List ℕ) (offset offset' cantidad' : ℕ)
    → Separado s t
    → offset + length bytes ≤ s.tamano_segmento
    → lectura (write_bytes m (s.direccion_real + offset) bytes) offset' cantidad' (some t)
      ≡ lectura m offset' cantidad' (some t)
lectura-apart m s t bytes offset offset' cantidad' apart inside =
    elim (Bool-cases (leb (offset' + cantidad') t.tamano_segmento)) [
      | inl fits ↦
          let small : offset' + cantidad' ≤ t.tamano_segmento = leb→le _ _ fits in
          rw fits (
            ap hecho (
              read-write_bytes-Apart m (s.direccion_real + offset) bytes
                (t.direccion_real + offset') cantidad' (omega arith)))
      | inr big ↦ rw big
    ]

-- On a valid table a granted write of a whole buffer by one process changes no read that another process,
-- or the same one in another segment, can make, if the offset and the length of the write, and those of the
-- read, are not negative and their sum is an `int`.
pub leer-pegar_bytes_otro :
    (u : Umv) (bytes : List ℕ) (base offset pid base' offset' cantidad' pid' : ℕ) {v : Umv}
    → IsValid u
    → offset + length bytes < 2 ^ 31
    → offset' + cantidad' < 2 ^ 31
    → (base ≢ base') ⊎ (pid ≢ pid')
    → pegar_bytes u bytes base offset (length bytes) pid ≡ hecho v
    → leer_bytes v base' offset' cantidad' pid' ≡ leer_bytes u base' offset' cantidad' pid'
leer-pegar_bytes_otro u bytes base offset pid base' offset' cantidad' pid' {v} i h h' d e =
    let (s, hit, fits, enough, done) = pegar_bytes-hecho u bytes base offset (length bytes) pid e in
    let p = found-EnPool u base pid i hit in
    let inside : offset + length bytes ≤ s.tamano_segmento = ground arith in
    let place : ptr_add s.direccion_real offset ≡ s.direccion_real + offset =
      ptr_add_nonneg s.direccion_real offset (omega arith) (omega arith) in
    subst
      (λ w. leer_bytes w base' offset' cantidad' pid' ≡ leer_bytes u base' offset' cantidad' pid')
      done
      (rw
        (
          leer_bytes_lem (pegado u s bytes offset (length bytes)) base' offset' cantidad' pid'
              (memoria-IsValid u _ i) h',
          leer_bytes_lem u base' offset' cantidad' pid' i h',
          place,
          take_all (length bytes) bytes (omega arith),
        )
        (elim (Option-cases (buscar_segmento u.lista_de_segmentos base' pid')) [
          | inl miss ↦ rw miss
          | inr (t, hit') ↦ rw hit' (
              lectura-apart u.memoria s t bytes offset offset' cantidad'
                (buscar_segmento-Separado u.lista_de_segmentos base pid base' pid' i.tabla.separados
                  hit hit' d)
                inside)
        ]))

-- On a valid table an offset of -k, with at most k bytes asked for, passes the check of the size in any
-- segment that the process owns and that has k addresses below it: the read gives the bytes below the
-- segment.
pub leer_bytes_offset_negativo :
    (u : Umv) (base cantidad pid k : ℕ) {s : Segmento}
    → IsValid u
    → buscar_segmento u.lista_de_segmentos base pid ≡ some s
    → 0 < k
    → k < 2 ^ 31
    → cantidad ≤ k
    → k ≤ s.direccion_real
    → leer_bytes u base (2 ^ 32 - k) cantidad pid
      ≡ hecho (read_bytes u.memoria (s.direccion_real - k) cantidad)
unfolding leer_bytes
leer_bytes_offset_negativo u base cantidad pid k {s} i hit pos small few room =
    let p = found-EnPool u base pid i hit in
    let place : ptr_add s.direccion_real (2 ^ 32 - k) ≡ s.direccion_real - k =
      ground (arith, i.direccionable) in
    rw (hit, leer_bytes, place) (ground arith)
