-- ===== src/Umv/Liberacion/Destruccion.antt =====
-- `destruirSegmentosDeUnPrograma` of proyectoUMV/umv.c: what the program that ends, and the others,
-- can still reach.
use personal_copy_tp.Common.{
  ℕ, ◌+◌, ◌≡◌, ◌≢◌, refl, ◌∙◌, ◌==◌, List, [], ◌∷◌, none, if◌then◌else◌, minus_one, Bool-cases, inl,
  inr, arith, All,
}
use personal_copy_tp.Umv.Estado.{Segmento, Umv}
use personal_copy_tp.Umv.Invariante.{EnPool, ConDueno, Separado, Separados, total, usado, IsValid}
use personal_copy_tp.Umv.Acceso.{denegado, buscar_segmento, leer_bytes, pegar_bytes}
use personal_copy_tp.Umv.Liberacion.{liberar_de, destruir_segmentos}

-- A predicate that does not look at the owner.
liberar_de-All {ℓ} :
    (P : Segmento → Type ℓ) (pid : ℕ) (xs : List Segmento)
    → ((s : Segmento) → P s → P (record s { process_id = minus_one }))
    → All P xs
    → All P (liberar_de pid xs)
unfolding liberar_de
liberar_de-All P pid [] f h = tt
liberar_de-All P pid (s ∷ xs) f h = elim (Bool-cases (s.process_id == pid)) [
  | inl e ↦ rw e (f s h.0, liberar_de-All P pid xs f h.1)
  | inr e ↦ rw e (h.0, liberar_de-All P pid xs f h.1)
]

liberar_de-Separados : (pid : ℕ) (xs : List Segmento) → Separados xs → Separados (liberar_de pid xs)
unfolding liberar_de
liberar_de-Separados pid [] h = tt
liberar_de-Separados pid (s ∷ xs) h =
    let rest = liberar_de-All (Separado s) pid xs (λ t k. k) h.0 in
    elim (Bool-cases (s.process_id == pid)) [
      | inl e ↦ rw e (rest, liberar_de-Separados pid xs h.1)
      | inr e ↦ rw e (rest, liberar_de-Separados pid xs h.1)
    ]

liberar_de-total : (pid : ℕ) (xs : List Segmento) → total (liberar_de pid xs) ≡ total xs
unfolding liberar_de
liberar_de-total pid [] = refl
liberar_de-total pid (s ∷ xs) = ground (arith, liberar_de-total pid xs)

liberar_de-nil : (pid : ℕ) (xs : List Segmento) → xs ≡ [] → liberar_de pid xs ≡ []
unfolding liberar_de
liberar_de-nil pid [] e = refl
liberar_de-nil pid (s ∷ xs) e = cc

-- The end of a program keeps the table valid.
pub destruir_segmentos-IsValid :
    (u : Umv) (pid : ℕ) → IsValid u → IsValid (destruir_segmentos u pid)
unfolding destruir_segmentos
destruir_segmentos-IsValid u pid i =
    let xs = u.lista_de_segmentos in
    record {
      direccionable = i.direccionable;
      cantidad_int = i.cantidad_int;
      tabla = record {
        en_pool =
            liberar_de-All (EnPool u.inicio_malloc u.cantidad_bytes_malloc) pid xs (λ s k. k)
              i.tabla.en_pool;
        separados = liberar_de-Separados pid xs i.tabla.separados;
        con_dueno = liberar_de-All ConDueno pid xs (λ s k. inl refl) i.tabla.con_dueno;
        completa = elim i.tabla.completa [
          | inl e ↦ inl (liberar_de-nil pid xs e)
          | inr e ↦ inr (liberar_de-total pid xs ∙ e)
        ];
      };
    }

buscar_segmento-liberar_de_propio :
    (pid base : ℕ) (xs : List Segmento)
    → pid ≢ minus_one
    → buscar_segmento (liberar_de pid xs) base pid ≡ none
unfolding buscar_segmento liberar_de
buscar_segmento-liberar_de_propio pid base [] n = refl
buscar_segmento-liberar_de_propio pid base (s ∷ xs) n =
    ground (arith, buscar_segmento-liberar_de_propio pid base xs n)

buscar_segmento-liberar_de_otro :
    (pid base otro : ℕ) (xs : List Segmento)
    → otro ≢ pid
    → otro ≢ minus_one
    → buscar_segmento (liberar_de pid xs) base otro ≡ buscar_segmento xs base otro
unfolding buscar_segmento liberar_de
buscar_segmento-liberar_de_otro pid base otro [] n d = refl
buscar_segmento-liberar_de_otro pid base otro (s ∷ xs) n d =
    ground (arith, buscar_segmento-liberar_de_otro pid base otro xs n d)

pub leer_bytes-destruir_segmentos :
    (u : Umv) (pid otro base offset cantidad : ℕ)
    → otro ≢ pid
    → otro ≢ minus_one
    → leer_bytes (destruir_segmentos u pid) base offset cantidad otro
      ≡ leer_bytes u base offset cantidad otro
unfolding destruir_segmentos leer_bytes
leer_bytes-destruir_segmentos u pid otro base offset cantidad d k =
    rw (buscar_segmento-liberar_de_otro pid base otro u.lista_de_segmentos d k, leer_bytes)

pub leer_bytes-destruir_propio :
    (u : Umv) (pid base offset cantidad : ℕ)
    → pid ≢ minus_one
    → leer_bytes (destruir_segmentos u pid) base offset cantidad pid ≡ denegado
unfolding destruir_segmentos leer_bytes
leer_bytes-destruir_propio u pid base offset cantidad n =
    rw (buscar_segmento-liberar_de_propio pid base u.lista_de_segmentos n, leer_bytes)

pub destruir_segmentos-denegado :
    (u : Umv) (pid base offset cantidad : ℕ) (bytes : List ℕ)
    → pid ≢ minus_one
    → (leer_bytes (destruir_segmentos u pid) base offset cantidad pid ≡ denegado)
      × (pegar_bytes (destruir_segmentos u pid) bytes base offset cantidad pid ≡ denegado)
unfolding destruir_segmentos pegar_bytes
destruir_segmentos-denegado u pid base offset cantidad bytes n =
    let gone = buscar_segmento-liberar_de_propio pid base u.lista_de_segmentos n in
    (leer_bytes-destruir_propio u pid base offset cantidad n, rw (gone, pegar_bytes))

-- After the end of a program, its reads and writes are refused, at every address, and another process reads
-- as before, if neither has the PID of a hole.
pub destruir_segmentos-accesos :
    (u : Umv) (pid otro base offset cantidad : ℕ) (bytes : List ℕ)
    → pid ≢ minus_one
    → otro ≢ pid
    → otro ≢ minus_one
    → (leer_bytes (destruir_segmentos u pid) base offset cantidad pid ≡ denegado)
      × (pegar_bytes (destruir_segmentos u pid) bytes base offset cantidad pid ≡ denegado)
      × (leer_bytes (destruir_segmentos u pid) base offset cantidad otro
          ≡ leer_bytes u base offset cantidad otro)
destruir_segmentos-accesos u pid otro base offset cantidad bytes n d k =
    let (no_read, no_write) = destruir_segmentos-denegado u pid base offset cantidad bytes n in
    (no_read, no_write, leer_bytes-destruir_segmentos u pid otro base offset cantidad d k)

-- The bytes that a process holds.
abbrev pub usado_por : ℕ → List Segmento → ℕ
usado_por pid [] = 0
usado_por pid (s ∷ xs) = (if s.process_id == pid then s.tamano_segmento else 0) + usado_por pid xs

liberar_de-usado :
    (pid : ℕ) (xs : List Segmento)
    → pid ≢ minus_one
    → usado (liberar_de pid xs) + usado_por pid xs ≡ usado xs
unfolding liberar_de
liberar_de-usado pid [] n = refl
liberar_de-usado pid (s ∷ xs) n = ground (arith, liberar_de-usado pid xs n)

-- The end of a program gives back just the bytes that it held.
pub destruir_segmentos-usado :
    (u : Umv) (pid : ℕ)
    → pid ≢ minus_one
    → usado (destruir_segmentos u pid).lista_de_segmentos + usado_por pid u.lista_de_segmentos
      ≡ usado u.lista_de_segmentos
unfolding destruir_segmentos
destruir_segmentos-usado u pid n = liberar_de-usado pid u.lista_de_segmentos n
