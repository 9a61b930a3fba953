-- ===== src/Umv/Abstracto/Textos.antt =====
-- The texts of the processes of proyectoUMV/umv.c: which bytes they are, and that their reads tell them apart.
use personal_copy_tp.Common.{
  ℕ, zero, suc, ◌+◌, ◌^◌, ◌<◌, ◌≤◌, ◌≡◌, ◌≢◌, refl, ap, ap₂, sym, ◌∙◌, ◌==◌, List, [], ◌∷◌, Option,
  none, some, leb, take, length, minus_one, false, inl, inr, arith, take_all, Option-cases,
  Bool-cases, leb→le, read_bytes, write_bytes, write_bytes_outside, read_bytes_cong,
  length-read_bytes, take-drop-read_bytes, update, Memory,
}
use personal_copy_tp.Umv.Estado.{Segmento, Umv}
use personal_copy_tp.Umv.Invariante.{IsValid}
use personal_copy_tp.Umv.Acceso.{hecho, buscar_segmento, leer_bytes}
use personal_copy_tp.Umv.Acceso.Limites.{found-EnPool, leer_bytes_lem, lectura}
use personal_copy_tp.Umv.Abstracto.{texto_de, vista, leer_texto, reemplazar}

-- A write inside a range changes the text that is read there as `reemplazar` does.
pub read-write_bytes-reemplazar :
    (m : Memory) (p n offset q : ℕ) (nuevos : List ℕ)
    → q ≡ p + offset
    → offset + length nuevos ≤ n
    → read_bytes (write_bytes m q nuevos) p n ≡ reemplazar (read_bytes m p n) offset nuevos
unfolding read_bytes write_bytes reemplazar
read-write_bytes-reemplazar m p zero offset q nuevos e h = refl
read-write_bytes-reemplazar m p (suc n) zero q [] e h = refl
read-write_bytes-reemplazar m p (suc n) zero q (b ∷ nuevos) e h =
    ap₂ ◌∷◌ (write_bytes_outside (update m q b) (q + 1) nuevos p (omega arith) ∙ ground arith) (
      read-write_bytes-reemplazar (update m q b) (p + 1) n zero (q + 1) nuevos (omega arith)
        (omega arith)
      ∙ ap (λ xs. reemplazar xs zero nuevos)
          (read_bytes_cong (update m q b) m (p + 1) n (λ r x y. ground arith)))
read-write_bytes-reemplazar m p (suc n) (suc offset) q nuevos e h =
    ap₂ ◌∷◌ (write_bytes_outside m q nuevos p (omega arith))
      (read-write_bytes-reemplazar m (p + 1) n offset q nuevos (omega arith) (omega arith))

leer_texto-todo : (xs : List ℕ) → leer_texto (some xs) 0 (length xs) ≡ hecho xs
leer_texto-todo xs = let all = take_all (length xs) xs (omega arith) in ground (arith, all)

leer_texto-hecho :
    (xs ys : List ℕ) (n : ℕ)
    → leer_texto (some xs) 0 n ≡ hecho ys
    → (n ≤ length xs) × (take n xs ≡ ys)
leer_texto-hecho xs ys n e = (ground arith, ground arith)

-- Two texts of less than 2 ^ 31 bytes that give the same reads are the same.
pub leer_texto-ext :
    (x y : Option (List ℕ))
    → ((xs : List ℕ) → x ≡ some xs → length xs < 2 ^ 31)
    → ((ys : List ℕ) → y ≡ some ys → length ys < 2 ^ 31)
    → ((n : ℕ) → n < 2 ^ 31 → leer_texto x 0 n ≡ leer_texto y 0 n)
    → x ≡ y
leer_texto-ext none none hx hy h = refl
leer_texto-ext none (some ys) hx hy h =
    let bad = h (length ys) (hy ys refl) ∙ leer_texto-todo ys in cc
leer_texto-ext (some xs) none hx hy h =
    let bad = sym (h (length xs) (hx xs refl)) ∙ leer_texto-todo xs in cc
leer_texto-ext (some xs) (some ys) hx hy h =
    let (k, first) =
      leer_texto-hecho xs ys (length ys) (h (length ys) (hy ys refl) ∙ leer_texto-todo ys) in
    let (k', first') =
      leer_texto-hecho ys xs (length xs) (sym (h (length xs) (hx xs refl)) ∙ leer_texto-todo xs) in
    ap some (sym (take_all (length ys) xs k') ∙ first)

-- A search of the table, and what a read of the segment found gives.
leer_texto-lectura :
    (u : Umv) (offset cantidad : ℕ) (s : Option Segmento)
    → lectura u.memoria offset cantidad s ≡ leer_texto (texto_de u s) offset cantidad
leer_texto-lectura u offset cantidad none = refl
leer_texto-lectura u offset cantidad (some s) =
    let whole = length-read_bytes u.memoria s.direccion_real s.tamano_segmento in
    let part = take-drop-read_bytes u.memoria s.direccion_real s.tamano_segmento offset cantidad in
    elim (Bool-cases (leb (offset + cantidad) s.tamano_segmento)) [
      | inl fits ↦ rw (whole, fits) (ap hecho (sym (part (leb→le _ _ fits))))
      | inr big ↦ rw (whole, big) refl
    ]

-- On a valid table a process reads of its text what it asks for, if its offset and length are not negative and
-- their sum is an `int`.
pub leer_bytes-leer_texto :
    (u : Umv) (base offset cantidad pid : ℕ)
    → IsValid u
    → pid ≢ minus_one
    → offset + cantidad < 2 ^ 31
    → leer_bytes u base offset cantidad pid ≡ leer_texto (vista u pid base) offset cantidad
leer_bytes-leer_texto u base offset cantidad pid i n h =
    let someone : (pid == minus_one) ≡ false = ground arith in
    leer_bytes_lem u base offset cantidad pid i h
    ∙ leer_texto-lectura u offset cantidad (buscar_segmento u.lista_de_segmentos base pid)
    ∙ rw (someone) refl

texto_de-corto :
    (u : Umv) (pid base : ℕ)
    → IsValid u
    → (xs : List ℕ) → texto_de u (buscar_segmento u.lista_de_segmentos base pid) ≡ some xs
    → length xs < 2 ^ 31
texto_de-corto u pid base i xs e =
    elim (Option-cases (buscar_segmento u.lista_de_segmentos base pid)) [
      | inl miss ↦ let bad : none ≡ some xs = rw miss at e in cc
      | inr (s, hit) ↦
          let p = found-EnPool u base pid i hit in
          let text : some (read_bytes u.memoria s.direccion_real s.tamano_segmento) ≡ some xs =
            rw hit at e in
          let same : read_bytes u.memoria s.direccion_real s.tamano_segmento ≡ xs = cc in
          omega
            (arith, ap length same, length-read_bytes u.memoria s.direccion_real s.tamano_segmento)
    ]

pub vista-corta :
    (u : Umv) (pid base : ℕ)
    → IsValid u
    → (xs : List ℕ) → vista u pid base ≡ some xs
    → length xs < 2 ^ 31
vista-corta u pid base i xs e = elim (Bool-cases (pid == minus_one)) [
  | inl hole ↦ let bad : none ≡ some xs = rw hole at e in cc
  | inr someone ↦ texto_de-corto u pid base i xs (rw someone at e)
]

-- Two valid tables in which a process reads the same at an address have the same text there.
pub vista-ext :
    (u v : Umv) (pid base : ℕ)
    → IsValid u
    → IsValid v
    → pid ≢ minus_one
    → ((n : ℕ) → n < 2 ^ 31 → leer_bytes u base 0 n pid ≡ leer_bytes v base 0 n pid)
    → vista u pid base ≡ vista v pid base
vista-ext u v pid base i j n same =
    leer_texto-ext (vista u pid base) (vista v pid base) (vista-corta u pid base i)
      (vista-corta v pid base j)
      (λ k h.
        sym (leer_bytes-leer_texto u base 0 k pid i n (omega arith))
        ∙ same k h
        ∙ leer_bytes-leer_texto v base 0 k pid j n (omega arith))
