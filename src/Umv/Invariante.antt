-- ===== src/Umv/Invariante.antt =====
-- When the segment table of proyectoUMV/umv.c describes the pool: what the other modules prove of it.
use personal_copy_tp.Common.{
  ℕ, ◌+◌, ◌^◌, ◌≤◌, ◌<◌, ◌≡◌, refl, subst, sym, ap, ◌∙◌, ◌⊎◌, inl, inr, List, [], ◌∷◌, arith,
  if◌then◌else◌, All, All-perm, All-mono, Apart, Permᴰ, minus_one, int_add, Bool-cases,
}
use personal_copy_tp.Umv.Estado.{
  Segmento, Umv, esta_libre, tamano_usado_desde, tamano_usado_del_malloc,
}

-- A segment lies in the pool of `cant` bytes that starts at `ini`.
abbrev pub EnPool : ℕ → ℕ → Segmento → Type 0
EnPool ini cant s =
    (s.tamano_segmento < 2 ^ 31)
    × (ini ≤ s.direccion_real)
    × (s.direccion_real + s.tamano_segmento ≤ ini + cant)

abbrev pub Separado : Segmento → Segmento → Type 0
Separado a b = Apart a.direccion_real a.tamano_segmento b.direccion_real b.tamano_segmento

abbrev pub Separados : List Segmento → Type 0
Separados [] = Unit
Separados (s ∷ xs) = All (Separado s) xs × Separados xs

-- A node is a hole or belongs to a process, whose PID is positive.
abbrev pub ConDueno : Segmento → Type 0
ConDueno s = (s.process_id ≡ minus_one) ⊎ ((0 < s.process_id) × (s.process_id < 2 ^ 31))

abbrev pub total : List Segmento → ℕ
total [] = 0
total (s ∷ xs) = s.tamano_segmento + total xs

abbrev pub usado : List Segmento → ℕ
usado [] = 0
usado (s ∷ xs) = (if esta_libre s then 0 else s.tamano_segmento) + usado xs

pub record TablaValida (ini cant : ℕ) (xs : List Segmento) : Type 0 where
  pub en_pool : All (EnPool ini cant) xs
  pub separados : Separados xs
  pub con_dueno : All ConDueno xs
  pub completa : (xs ≡ []) ⊎ (total xs ≡ cant)

-- The pool is addressable and its size is an `int`; the nodes lie in it, share no byte, have an
-- owner or are holes, and together make up the pool (or there are none, as at the start).
pub record IsValid (u : Umv) : Type 0 where
  pub direccionable : u.inicio_malloc + u.cantidad_bytes_malloc < 2 ^ 64
  pub cantidad_int : u.cantidad_bytes_malloc < 2 ^ 31
  pub tabla : TablaValida u.inicio_malloc u.cantidad_bytes_malloc u.lista_de_segmentos

pub Separados-perm : {xs ys : List Segmento} → Permᴰ xs ys → Separados xs → Separados ys
Separados-perm Permᴰ.nil h = tt
Separados-perm (Permᴰ.cons {b = b} {l₁ = l₁} e d) h =
    (All-perm (Separado b) d (subst (λ a. All (Separado a) l₁) e h.0), Separados-perm d h.1)
Separados-perm (Permᴰ.swap {a = a} {b = b} {b' = b'} {l = l} e f) h =
    subst (λ t. Separados (t ∷ b' ∷ l)) f
      (subst (λ t. Separados (b ∷ t ∷ l)) e ((Apart-swap a b h.0.0, h.1.0), (h.0.1, h.1.1)))
  where
    Apart-swap : (a b : Segmento) → Separado a b → Separado b a
    Apart-swap a b (inl k) = inr k
    Apart-swap a b (inr k) = inl k
Separados-perm (Permᴰ.trans d e) h = Separados-perm e (Separados-perm d h)

pub total-perm : {xs ys : List Segmento} → Permᴰ xs ys → total xs ≡ total ys
total-perm Permᴰ.nil = refl
total-perm (Permᴰ.cons e d) =
    omega (arith, ap (λ (s : Segmento). s.tamano_segmento) e, total-perm d)
total-perm (Permᴰ.swap e f) =
    omega (
      arith,
      ap (λ (s : Segmento). s.tamano_segmento) e,
      ap (λ (s : Segmento). s.tamano_segmento) f,
    )
total-perm (Permᴰ.trans d e) = total-perm d ∙ total-perm e

pub perm-nil : {xs ys : List Segmento} → Permᴰ xs ys → xs ≡ [] → ys ≡ []
perm-nil Permᴰ.nil h = refl
perm-nil (Permᴰ.cons e d) h = cc
perm-nil (Permᴰ.swap e f) h = cc
perm-nil (Permᴰ.trans d e) h = perm-nil e (perm-nil d h)

pub TablaValida-perm :
    (ini cant : ℕ) {xs ys : List Segmento}
    → Permᴰ xs ys
    → TablaValida ini cant xs
    → TablaValida ini cant ys
TablaValida-perm ini cant {xs} {ys} d v = record {
  en_pool = All-perm (EnPool ini cant) d v.en_pool;
  separados = Separados-perm d v.separados;
  con_dueno = All-perm ConDueno d v.con_dueno;
  completa = elim v.completa [ inl e ↦ inl (perm-nil d e) | inr e ↦ inr (sym (total-perm d) ∙ e) ];
}

-- A hole cut in two, the first part given to a process.
pub TablaValida-split :
    (ini cant : ℕ) (h a b : Segmento) (xs : List Segmento)
    → TablaValida ini cant (h ∷ xs)
    → a.direccion_real ≡ h.direccion_real
    → b.direccion_real ≡ a.direccion_real + a.tamano_segmento
    → a.tamano_segmento + b.tamano_segmento ≡ h.tamano_segmento
    → ConDueno a
    → b.process_id ≡ h.process_id
    → TablaValida ini cant (a ∷ b ∷ xs)
TablaValida-split ini cant h a b xs v ea eb et da db = record {
  en_pool = (omega (arith, v.en_pool.0), (omega (arith, v.en_pool.0), v.en_pool.1));
  separados = (
    (omega arith, All-mono xs (λ t k. omega arith) v.separados.0),
    (All-mono xs (λ t k. omega arith) v.separados.0, v.separados.1),
  );
  con_dueno = (da, (omega (arith, v.con_dueno.0), v.con_dueno.1));
  completa = inr (omega (arith, total-of v.completa));
}
  where
    total-of : (h ∷ xs ≡ []) ⊎ (total (h ∷ xs) ≡ cant) → total (h ∷ xs) ≡ cant
    total-of (inl e) = cc
    total-of (inr e) = e

pub usado-le-total : (xs : List Segmento) → usado xs ≤ total xs
usado-le-total [] = omega arith
usado-le-total (s ∷ xs) = ground (arith, usado-le-total xs)

-- `tamanoUsadoDelMalloc` adds up the sizes without a wrap.
tamano_usado_desde-usado :
    (k : ℕ) (xs : List Segmento) → k + usado xs < 2 ^ 32 → tamano_usado_desde k xs ≡ k + usado xs
unfolding tamano_usado_desde
tamano_usado_desde-usado k [] h = omega arith
tamano_usado_desde-usado k (s ∷ xs) h = elim (Bool-cases (esta_libre s)) [
  | inl e ↦
      let h' : k + (0 + usado xs) < 2 ^ 32 = rw e at h in
      rw e (tamano_usado_desde-usado k xs (omega arith) ∙ omega arith)
  | inr e ↦
      let h' : k + (s.tamano_segmento + usado xs) < 2 ^ 32 = rw e at h in
      let sum : int_add k s.tamano_segmento ≡ k + s.tamano_segmento = omega arith in
      rw (e, sum) (tamano_usado_desde-usado (k + s.tamano_segmento) xs (omega arith) ∙ omega arith)
]

pub usado-le : (u : Umv) → IsValid u → usado u.lista_de_segmentos ≤ u.cantidad_bytes_malloc
usado-le u i = elim i.tabla.completa [
  | inl e ↦ rw e (omega arith)
  | inr e ↦ omega (arith, usado-le-total u.lista_de_segmentos)
]

pub tamano_usado-suma :
    (xs : List Segmento) → usado xs < 2 ^ 32 → tamano_usado_del_malloc xs ≡ usado xs
unfolding tamano_usado_del_malloc
tamano_usado-suma xs h = tamano_usado_desde-usado 0 xs (omega arith) ∙ omega arith

pub tamano_usado-usado :
    (u : Umv)
    → IsValid u
    → tamano_usado_del_malloc u.lista_de_segmentos ≡ usado u.lista_de_segmentos
tamano_usado-usado u i =
    tamano_usado-suma u.lista_de_segmentos (omega (arith, usado-le u i, i.cantidad_int))
