-- ===== src/Umv/Compactacion/Contenidos.antt =====
-- The loop of `compactador` in proyectoUMV/umv.c on segments that follow one another in memory: each
-- keeps its bytes, and they end up without a gap.
use personal_copy_tp.Common.{
  ℕ, ◌+◌, ◌^◌, ◌≤◌, ◌<◌, ◌≡◌, refl, ap₂, ◌∙◌, List, [], ◌∷◌, Bool-cases, inl, inr, arith, subst,
  ltb, Memory, read_bytes, write_bytes, ptr_add_nonneg, extend, read-write_bytes, read_bytes_cong,
  write_bytes_outside, length-read_bytes,
}
use personal_copy_tp.Umv.Estado.{Segmento, Solape}
use personal_copy_tp.Umv.Compactacion.{se_solapan, memcpy, actualizar_segmento, bajar, fin, mover}

-- A `memcpy` that copies ranges that meet as well.
abbrev pub memmove : Solape
memmove m destino origen n = write_bytes m destino (read_bytes m origen n)

pub memcpy-memmove :
    (m : Memory) (destino origen n : ℕ)
    → memcpy memmove m destino origen n ≡ write_bytes m destino (read_bytes m origen n)
unfolding memcpy
memcpy-memmove m destino origen n = elim (Bool-cases (se_solapan destino origen n)) [
  | inl meet ↦ rw meet refl
  | inr apart ↦ rw apart refl
]

-- What a process has of a segment.
pub record Contenido : Type 0 where
  pub id : ℕ
  pub pid : ℕ
  pub direccion : ℕ
  pub tamano : ℕ
  pub bytes : List ℕ

abbrev pub contenido : Memory → Segmento → Contenido
contenido m s = record {
  id = s.id_segmento;
  pid = s.process_id;
  direccion = s.direccion_virtual;
  tamano = s.tamano_segmento;
  bytes = read_bytes m s.direccion_real s.tamano_segmento;
}

abbrev pub contenidos : Memory → List Segmento → List Contenido
contenidos m [] = []
contenidos m (s ∷ xs) = contenido m s ∷ contenidos m xs

-- From `lo` up the segments follow one another, with or without gaps, and end below `hi`.
abbrev pub Encadenados : ℕ → ℕ → List Segmento → Type 0
Encadenados hi lo [] = lo ≤ hi
Encadenados hi lo (s ∷ xs) =
    (s.tamano_segmento < 2 ^ 31)
    × (lo ≤ s.direccion_real)
    × Encadenados hi (s.direccion_real + s.tamano_segmento) xs

-- The same with no gap.
abbrev pub Contiguos : ℕ → List Segmento → Type 0
Contiguos lo [] = Unit
Contiguos lo (s ∷ xs) =
    (s.direccion_real ≡ lo) × Contiguos (s.direccion_real + s.tamano_segmento) xs

pub Encadenados-mono :
    (hi lo lo' : ℕ) (xs : List Segmento) → lo' ≤ lo → Encadenados hi lo xs → Encadenados hi lo' xs
Encadenados-mono hi lo lo' [] h e = omega arith
Encadenados-mono hi lo lo' (s ∷ xs) h e = (e.0, omega arith, e.2)

pub Encadenados-le : (hi lo : ℕ) (xs : List Segmento) → Encadenados hi lo xs → lo ≤ hi
Encadenados-le hi lo [] e = e
Encadenados-le hi lo (s ∷ xs) e =
    omega (arith, Encadenados-le hi (s.direccion_real + s.tamano_segmento) xs e.2)

-- Memory that agrees from `lo` on holds the same contents of a chain that starts there.
pub contenidos_cong :
    (m m' : Memory) (hi lo : ℕ) (xs : List Segmento)
    → ((q : ℕ) → lo ≤ q → m q ≡ m' q)
    → Encadenados hi lo xs
    → contenidos m xs ≡ contenidos m' xs
contenidos_cong m m' hi lo [] h e = refl
contenidos_cong m m' hi lo (s ∷ xs) h e =
    let here =
      read_bytes_cong m m' s.direccion_real s.tamano_segmento (λ q a b. h q (omega arith)) in
    let rest =
      contenidos_cong m m' hi (s.direccion_real + s.tamano_segmento) xs (λ q a. h q (omega arith))
        e.2 in
    rw (here, rest)

-- One step: the segment comes to `destino`, keeps its bytes, and nothing outside the bytes between
-- `destino` and its old end changes.
pub record Bajado (m : Memory) (destino : ℕ) (s : Segmento) (r : Memory × Segmento) : Type 0 where
  pub lugar : r.1.direccion_real ≡ destino
  pub tamano : r.1.tamano_segmento ≡ s.tamano_segmento
  pub mismo : contenido r.0 r.1 ≡ contenido m s
  pub debajo : (q : ℕ) → q < destino → r.0 q ≡ m q
  pub encima : (q : ℕ) → s.direccion_real + s.tamano_segmento ≤ q → r.0 q ≡ m q

pub bajar-Bajado :
    (m : Memory) (destino : ℕ) (s : Segmento)
    → s.tamano_segmento < 2 ^ 31
    → destino ≤ s.direccion_real
    → Bajado m destino s (bajar memmove m destino s)
unfolding bajar actualizar_segmento
bajar-Bajado m destino s small low = elim (Bool-cases (ltb destino s.direccion_real)) [
  | inl above ↦
      let size : extend s.tamano_segmento ≡ s.tamano_segmento = ground arith in
      let bytes = read_bytes m s.direccion_real s.tamano_segmento in
      let len = length-read_bytes m s.direccion_real s.tamano_segmento in
      let back : read_bytes (write_bytes m destino bytes) destino s.tamano_segmento ≡ bytes =
        rw len at (read-write_bytes m destino bytes) in
      rw (above, size, memcpy-memmove m destino s.direccion_real s.tamano_segmento)
        (record {
          lugar = refl;
          tamano = refl;
          mismo = ground (arith, back);
          debajo = λ q h. write_bytes_outside m destino bytes q (inl h);
          encima = λ q h. write_bytes_outside m destino bytes q (inr (omega (arith, len)));
        })
  | inr same ↦ rw same (record {
    lugar = ground arith;
    tamano = refl;
    mismo = refl;
    debajo = λ q h. refl;
    encima = λ q h. refl;
  })
]

-- The whole loop, started at a segment `s` that stays where it is.
pub record Movido (m : Memory) (s : Segmento) (xs : List Segmento) (r : Memory × List Segmento)
    : Type 0 where
  pub cola : List Segmento
  pub forma : r.1 ≡ s ∷ cola
  pub mismos : contenidos r.0 r.1 ≡ contenidos m (s ∷ xs)
  pub contiguos : Contiguos s.direccion_real r.1
  pub debajo : (q : ℕ) → q < s.direccion_real + s.tamano_segmento → r.0 q ≡ m q

Movido-step :
    (m : Memory) (s t : Segmento) (xs : List Segmento) (hi : ℕ) (r : Memory × Segmento)
    (q : Memory × List Segmento)
    → t.tamano_segmento < 2 ^ 31
    → s.direccion_real + s.tamano_segmento ≤ t.direccion_real
    → Encadenados hi (t.direccion_real + t.tamano_segmento) xs
    → Bajado m (s.direccion_real + s.tamano_segmento) t r
    → Movido r.0 r.1 xs q
    → Movido m s (t ∷ xs) (q.0, s ∷ q.1)
Movido-step m s t xs hi r q small low e b p = record {
  cola = q.1;
  forma = refl;
  mismos = ap₂ ◌∷◌ kept (
      p.mismos
      ∙ ap₂ ◌∷◌ b.mismo
          (contenidos_cong r.0 m hi (t.direccion_real + t.tamano_segmento) xs b.encima e));
  contiguos = (refl, subst (λ n. Contiguos n q.1) b.lugar p.contiguos);
  debajo = below;
}
  where
    below : (n : ℕ) → n < s.direccion_real + s.tamano_segmento → q.0 n ≡ m n
    below n k = p.debajo n (omega (arith, b.lugar)) ∙ b.debajo n k

    kept : contenido q.0 s ≡ contenido m s
    kept =
        let same = read_bytes_cong q.0 m s.direccion_real s.tamano_segmento (λ n a c. below n c) in
        ground (arith, same)

pub mover-Movido :
    (m : Memory) (s : Segmento) (xs : List Segmento) (hi : ℕ)
    → hi < 2 ^ 64
    → s.tamano_segmento < 2 ^ 31
    → Encadenados hi (s.direccion_real + s.tamano_segmento) xs
    → Movido m s xs (mover memmove m s xs)
unfolding mover
mover-Movido m s [] hi h small e = record {
  cola = [];
  forma = refl;
  mismos = refl;
  contiguos = (refl, tt);
  debajo = λ q k. refl;
}
mover-Movido m s (t ∷ xs) hi h small e =
    let lo = s.direccion_real + s.tamano_segmento in
    let above = Encadenados-le hi (t.direccion_real + t.tamano_segmento) xs e.2 in
    let end : fin s ≡ lo = ptr_add_nonneg s.direccion_real s.tamano_segmento small (omega arith) in
    let b = bajar-Bajado m (fin s) t e.0 (rw end e.1) in
    let r = bajar memmove m (fin s) t in
    let b' : Bajado m lo t r = subst (λ n. Bajado m n t r) end b in
    let chain : Encadenados hi (r.1.direccion_real + r.1.tamano_segmento) xs =
      Encadenados-mono hi (t.direccion_real + t.tamano_segmento) _ xs
        (omega (arith, b'.lugar, b'.tamano, e.1)) e.2 in
    let p = mover-Movido r.0 r.1 xs hi h (omega (arith, b'.tamano, e.0)) chain in
    Movido-step m s t xs hi r (mover memmove r.0 r.1 xs) e.0 e.1 e.2 b' p
