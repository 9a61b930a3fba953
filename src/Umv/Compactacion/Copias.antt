-- ===== src/Umv/Compactacion/Copias.antt =====
-- What `memcpy` does on ranges that meet matters to the memory that `compactador` of proyectoUMV/umv.c leaves,
-- not to its table; and where no segment is moved by less than its size it matters to neither.
use personal_copy_tp.Common.{
  ℕ, ◌+◌, ◌^◌, ◌<◌, ◌≤◌, ◌≡◌, ◌⊎◌, refl, ap, ◌∙◌, List, [], ◌∷◌, Bool-cases, inl, inr, arith,
  Memory, ltb, false, ptr_add_nonneg, int_ltb, extend, subst,
}
use personal_copy_tp.Commons.{ListOps}
use personal_copy_tp.Umv.Estado.{Segmento, Solape, Umv, tamano_usado_del_malloc}
use personal_copy_tp.Umv.Compactacion.{
  se_solapan, memcpy, actualizar_segmento, bajar, mover, fin, terminar, compactar,
}
use personal_copy_tp.Umv.Compactacion.Contenidos.{
  memmove, Encadenados, Encadenados-le, Encadenados-mono, bajar-Bajado,
}

-- Each segment, packed from `lo` on, stays or goes down by its size at least.
abbrev pub SinSolape : ℕ → List Segmento → Type 0
SinSolape lo [] = Unit
SinSolape lo (s ∷ xs) =
    ((s.direccion_real ≡ lo) ⊎ (lo + s.tamano_segmento ≤ s.direccion_real))
    × SinSolape (lo + s.tamano_segmento) xs

bajar-tabla :
    (k k' : Solape) (m m' : Memory) (destino : ℕ) (s : Segmento)
    → (bajar k m destino s).1 ≡ (bajar k' m' destino s).1
unfolding bajar actualizar_segmento
bajar-tabla k k' m m' destino s = elim (Bool-cases (ltb destino s.direccion_real)) [
  | inl above ↦ rw above refl
  | inr same ↦ rw same refl
]

mover-tabla :
    (k k' : Solape) (m m' : Memory) (s : Segmento) (xs : List Segmento)
    → (mover k m s xs).1 ≡ (mover k' m' s xs).1
unfolding mover
mover-tabla k k' m m' s [] = refl
mover-tabla k k' m m' s (t ∷ xs) =
    let r = bajar k m (fin s) t in
    let r' = bajar k' m' (fin s) t in
    ap (λ ys. s ∷ ys)
      (mover-tabla k k' r.0 r'.0 r.1 xs
        ∙ ap (λ n. (mover k' r'.0 n xs).1) (bajar-tabla k k' m m' (fin s) t))

module _ (lib : ListOps Segmento) where
  terminar-memoria :
      (u : Umv) (s : Segmento) (m m' : Memory) (ys : List Segmento)
      → terminar lib u s m ys ≡ record (terminar lib u s m' ys) { memoria = m }
  unfolding terminar
  terminar-memoria u s m m' ys =
      elim (Bool-cases (int_ltb (tamano_usado_del_malloc ys) u.cantidad_bytes_malloc)) [
        | inl rest ↦ rw rest refl
        | inr full ↦ rw full refl
      ]

  -- All but the memory is the same, whatever `memcpy` does.
  pub compactar-tabla :
      (k k' : Solape) (u : Umv) (xs : List Segmento)
      → (m : Memory) × (compactar lib k u xs ≡ record (compactar lib k' u xs) { memoria = m })
  unfolding compactar
  compactar-tabla k k' u [] = (u.memoria, refl)
  compactar-tabla k k' u (s ∷ xs) =
      let r = bajar k u.memoria u.inicio_malloc s in
      let r' = bajar k' u.memoria u.inicio_malloc s in
      let q = mover k r.0 r.1 xs in
      let q' = mover k' r'.0 r'.1 xs in
      let first = bajar-tabla k k' u.memoria u.memoria u.inicio_malloc s in
      let table : q.1 ≡ q'.1 =
        mover-tabla k k' r.0 r'.0 r.1 xs ∙ ap (λ n. (mover k' r'.0 n xs).1) first in
      (
        q.0,
        ap (λ n. terminar lib u n q.0 q.1) first
            ∙ ap (λ ys. terminar lib u r'.1 q.0 ys) table
            ∙ terminar-memoria u r'.1 q.0 q'.0 q'.1,
      )

bajar-SinSolape :
    (k : Solape) (m : Memory) (destino : ℕ) (s : Segmento)
    → s.tamano_segmento < 2 ^ 31
    → (s.direccion_real ≡ destino) ⊎ (destino + s.tamano_segmento ≤ s.direccion_real)
    → bajar k m destino s ≡ bajar memmove m destino s
unfolding bajar actualizar_segmento memcpy
bajar-SinSolape k m destino s small h = elim (Bool-cases (ltb destino s.direccion_real)) [
  | inr same ↦ rw same refl
  | inl above ↦
      let size : extend s.tamano_segmento ≡ s.tamano_segmento = ground arith in
      let apart : se_solapan destino s.direccion_real s.tamano_segmento ≡ false = ground arith in
      rw (above, size, apart) refl
]

mover-SinSolape :
    (k : Solape) (m : Memory) (s : Segmento) (xs : List Segmento) (hi : ℕ)
    → hi < 2 ^ 64
    → s.tamano_segmento < 2 ^ 31
    → Encadenados hi (s.direccion_real + s.tamano_segmento) xs
    → SinSolape (s.direccion_real + s.tamano_segmento) xs
    → mover k m s xs ≡ mover memmove m s xs
unfolding mover
mover-SinSolape k m s [] hi h small e a = refl
mover-SinSolape k m s (t ∷ xs) hi h small e a =
    let lo = s.direccion_real + s.tamano_segmento in
    let above = Encadenados-le hi (t.direccion_real + t.tamano_segmento) xs e.2 in
    let end : fin s ≡ lo = ptr_add_nonneg s.direccion_real s.tamano_segmento small (omega arith) in
    let b = bajar-Bajado m (fin s) t e.0 (rw end e.1) in
    let r = bajar memmove m (fin s) t in
    let chain : Encadenados hi (r.1.direccion_real + r.1.tamano_segmento) xs =
      Encadenados-mono hi (t.direccion_real + t.tamano_segmento) _ xs
        (omega (arith, b.lugar, b.tamano, e.1, end)) e.2 in
    let next : lo + t.tamano_segmento ≡ r.1.direccion_real + r.1.tamano_segmento =
      omega (arith, b.lugar, b.tamano, end) in
    let apart = subst (λ n. SinSolape n xs) next a.1 in
    let one : bajar k m (fin s) t ≡ r = bajar-SinSolape k m (fin s) t e.0 (rw end a.0) in
    ap (λ (p : Memory × Segmento). ((mover k p.0 p.1 xs).0, s ∷ (mover k p.0 p.1 xs).1)) one
    ∙ ap (λ (q : Memory × List Segmento). (q.0, s ∷ q.1))
        (mover-SinSolape k r.0 r.1 xs hi h (omega (arith, b.tamano, e.0)) chain apart)

-- Packed from the start of the pool on with no segment over its old place, the compaction is the same.
pub compactar-SinSolape :
    (lib : ListOps Segmento) (k : Solape) (u : Umv) (xs : List Segmento) (hi : ℕ)
    → hi < 2 ^ 64
    → Encadenados hi u.inicio_malloc xs
    → SinSolape u.inicio_malloc xs
    → compactar lib k u xs ≡ compactar lib memmove u xs
unfolding compactar
compactar-SinSolape lib k u [] hi h e a = refl
compactar-SinSolape lib k u (s ∷ xs) hi h e a =
    let r = bajar memmove u.memoria u.inicio_malloc s in
    let b = bajar-Bajado u.memoria u.inicio_malloc s e.0 e.1 in
    let chain : Encadenados hi (r.1.direccion_real + r.1.tamano_segmento) xs =
      Encadenados-mono hi (s.direccion_real + s.tamano_segmento) _ xs
        (omega (arith, b.lugar, b.tamano, e.1)) e.2 in
    let next : u.inicio_malloc + s.tamano_segmento ≡ r.1.direccion_real + r.1.tamano_segmento =
      omega (arith, b.lugar, b.tamano) in
    let one = bajar-SinSolape k u.memoria u.inicio_malloc s e.0 a.0 in
    ap (λ (p : Memory × Segmento). terminar lib u p.1 (mover k p.0 p.1 xs).0 (mover k p.0 p.1 xs).1)
      one
    ∙ ap (λ (q : Memory × List Segmento). terminar lib u r.1 q.0 q.1)
        (mover-SinSolape k r.0 r.1 xs hi h (omega (arith, b.tamano, e.0)) chain
          (subst (λ n. SinSolape n xs) next a.1))
