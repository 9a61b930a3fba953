-- ===== src/Umv/Acceso/Limites.antt =====
-- What `leerBytes` and `pegarBytes` of proyectoUMV/umv.c reach: their own segment and nothing else,
-- as long as offset and length are not negative and their sum is an `int`.
use personal_copy_tp.Common.{
  ℕ, ◌+◌, ◌^◌, ◌<◌, ◌≡◌, subst, ◌⊎◌, inl, inr, ◌≢◌, List, [], ◌∷◌, Option, none, some, arith,
  if◌then◌else◌, ◌==◌, ◌&&◌, leb, All, Bool-cases, Option-cases, ptr_add_nonneg, read_bytes,
  write_bytes, length, take_all, Memory,
}
use personal_copy_tp.Umv.Estado.{Segmento, Umv}
use personal_copy_tp.Umv.Invariante.{EnPool, Separado, Separados, IsValid}
use personal_copy_tp.Umv.Acceso.{
  Acceso, denegado, fallo, hecho, buscar_segmento, leer_bytes, pegar_bytes,
}

-- What a search finds has the address and the owner searched for, and any property of all nodes.
pub buscar_segmento-All {ℓ} :
    (P : Segmento → Type ℓ) (xs : List Segmento) (base pid : ℕ) {s : Segmento}
    → buscar_segmento xs base pid ≡ some s
    → All P xs
    → P s × (s.direccion_virtual ≡ base) × (s.process_id ≡ pid)
unfolding buscar_segmento
buscar_segmento-All P [] base pid e h = cc
buscar_segmento-All P (x ∷ xs) base pid {s} e h =
    elim (Bool-cases (x.direccion_virtual == base && x.process_id == pid)) [
      | inl hit ↦
          let same : x ≡ s = ground arith in
          let at : x.direccion_virtual ≡ base = ground arith in
          let of : x.process_id ≡ pid = ground arith in
          subst (λ t. P t × (t.direccion_virtual ≡ base) × (t.process_id ≡ pid)) same (h.0, at, of)
      | inr miss ↦ buscar_segmento-All P xs base pid (ground arith) h.1
    ]

-- Two searches for different keys find segments apart.
pub buscar_segmento-Separado :
    (xs : List Segmento) (base pid base' pid' : ℕ) {s t : Segmento}
    → Separados xs
    → buscar_segmento xs base pid ≡ some s
    → buscar_segmento xs base' pid' ≡ some t
    → (base ≢ base') ⊎ (pid ≢ pid')
    → Separado s t
unfolding buscar_segmento
buscar_segmento-Separado [] base pid base' pid' v e e' d = cc
buscar_segmento-Separado (x ∷ xs) base pid base' pid' {s} {t} v e e' d =
    elim (Bool-cases (x.direccion_virtual == base && x.process_id == pid)) [
      | inl hit ↦
          let same : x ≡ s = ground arith in
          let later : buscar_segmento xs base' pid' ≡ some t = ground arith in
          subst (λ r. Separado r t) same
            (buscar_segmento-All (Separado x) xs base' pid' later v.0).0
      | inr miss ↦
          let later : buscar_segmento xs base pid ≡ some s = ground arith in
          elim (Bool-cases (x.direccion_virtual == base' && x.process_id == pid')) [
            | inl hit ↦
                let same : x ≡ t = ground arith in
                let apart : Separado x s =
                  (buscar_segmento-All (Separado x) xs base pid later v.0).0 in
                subst (λ r. Separado s r) same (omega arith)
            | inr miss' ↦
                let later' : buscar_segmento xs base' pid' ≡ some t = ground arith in
                buscar_segmento-Separado xs base pid base' pid' v.1 later later' d
          ]
    ]

-- What a read by the owner should give: the bytes of the segment from the offset on, if they all lie
-- in it.
abbrev pub lectura : Memory → ℕ → ℕ → Option Segmento → Acceso (List ℕ)
lectura m offset cantidad none = denegado
lectura m offset cantidad (some s) =
    if leb (offset + cantidad) s.tamano_segmento
    then hecho (read_bytes m (s.direccion_real + offset) cantidad)
    else denegado

-- The same for a write: the memory that it leaves.
abbrev pub escritura : Memory → List ℕ → ℕ → Option Segmento → Acceso Memory
escritura m bytes offset none = denegado
escritura m bytes offset (some s) =
    if leb (offset + length bytes) s.tamano_segmento
    then hecho (write_bytes m (s.direccion_real + offset) bytes)
    else denegado

abbrev pub con_memoria : Umv → Acceso Memory → Acceso Umv
con_memoria u denegado = denegado
con_memoria u fallo = fallo
con_memoria u (hecho m) = hecho (record u { memoria = m })

pub found-EnPool :
    (u : Umv) (base pid : ℕ) {s : Segmento}
    → IsValid u
    → buscar_segmento u.lista_de_segmentos base pid ≡ some s
    → EnPool u.inicio_malloc u.cantidad_bytes_malloc s
found-EnPool u base pid v e =
    (buscar_segmento-All (EnPool u.inicio_malloc u.cantidad_bytes_malloc) u.lista_de_segmentos base
      pid e v.tabla.en_pool).0

-- On a valid table, with an offset and a length that are not negative and whose sum is an `int`,
-- `leer_bytes` is `lectura` of the segment found: it does not fail, and the bytes read are those of
-- the segment.
pub leer_bytes_lem :
    (u : Umv) (base offset cantidad pid : ℕ)
    → IsValid u
    → offset + cantidad < 2 ^ 31
    → leer_bytes u base offset cantidad pid
      ≡ lectura u.memoria offset cantidad (buscar_segmento u.lista_de_segmentos base pid)
unfolding leer_bytes
leer_bytes_lem u base offset cantidad pid v h =
    elim (Option-cases (buscar_segmento u.lista_de_segmentos base pid)) [
      | inl e ↦ rw (e, leer_bytes)
      | inr (s, e) ↦
          let p = found-EnPool u base pid v e in
          rw (e, leer_bytes)
            (ground (arith, ptr_add_nonneg s.direccion_real offset, v.direccionable))
    ]

-- Under the same conditions `pegar_bytes`, given a buffer of just `cantidad` bytes, is `escritura`
-- into the segment found, and changes nothing but the memory.
pub pegar_bytes_lem :
    (u : Umv) (bytes : List ℕ) (base offset pid : ℕ)
    → IsValid u
    → offset + length bytes < 2 ^ 31
    → pegar_bytes u bytes base offset (length bytes) pid
      ≡ con_memoria u
          (escritura u.memoria bytes offset (buscar_segmento u.lista_de_segmentos base pid))
unfolding pegar_bytes
pegar_bytes_lem u bytes base offset pid v h =
    elim (Option-cases (buscar_segmento u.lista_de_segmentos base pid)) [
      | inl e ↦ rw (e, pegar_bytes)
      | inr (s, e) ↦
          let p = found-EnPool u base pid v e in
          rw (e, pegar_bytes, take_all (length bytes) bytes (omega arith))
            (ground (arith, ptr_add_nonneg s.direccion_real offset, v.direccionable))
    ]
