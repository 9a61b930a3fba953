-- ===== src/Umv/Compactacion/Transparencia.antt =====
-- No process notices `compactador` of proyectoUMV/umv.c: `leerBytes` answers as before.
use personal_copy_tp.Common.{
  ℕ, ◌+◌, ◌^◌, ◌<◌, ◌≡◌, ◌≢◌, refl, ap, sym, ◌∙◌, ◌==◌, List, [], ◌∷◌, ◌++◌, if◌then◌else◌,
  minus_one, Bool-cases, inl, inr, arith, subst, Memory, All, leb, leb→le, ◌&&◌, take, drop,
  take-drop-read_bytes,
}
use personal_copy_tp.Commons.{ListOps, Ordered}
use personal_copy_tp.Umv.Estado.{Segmento, Umv}
use personal_copy_tp.Umv.Invariante.{IsValid, usado}
use personal_copy_tp.Umv.Acceso.{Acceso, denegado, hecho, buscar_segmento, leer_bytes}
use personal_copy_tp.Umv.Acceso.Limites.{lectura, leer_bytes_lem}
use personal_copy_tp.Umv.Liberacion.Vacios.{ocupados}
use personal_copy_tp.Umv.Compactacion.{compactador}
use personal_copy_tp.Umv.Compactacion.Contenidos.{Contenido, contenidos}
use personal_copy_tp.Umv.Compactacion.Orden.{direccion, Positivo}
use personal_copy_tp.Umv.Compactacion.Correccion.{
  Compactado, compactador-Compactado, compactador-tabla,
}
use personal_copy_tp.Umv.Compactacion.Copias.{SinSolape}
use personal_copy_tp.Umv.Acceso.Aislamiento.{memoria-IsValid}
use personal_copy_tp.Umv.Compactacion.Validez.{Compactado-IsValid, Compactado-usado}

-- A read as a function of the contents alone.
lectura_de : List Contenido → ℕ → ℕ → ℕ → ℕ → Acceso (List ℕ)
lectura_de [] base pid offset cantidad = denegado
lectura_de (c ∷ cs) base pid offset cantidad =
    if c.direccion == base && c.pid == pid
    then if leb (offset + cantidad) c.tamano
      then hecho (take cantidad (drop offset c.bytes))
      else denegado
    else lectura_de cs base pid offset cantidad

lectura-contenidos :
    (m : Memory) (xs : List Segmento) (base pid offset cantidad : ℕ)
    → lectura m offset cantidad (buscar_segmento xs base pid)
      ≡ lectura_de (contenidos m xs) base pid offset cantidad
unfolding lectura_de buscar_segmento
lectura-contenidos m [] base pid offset cantidad = refl
lectura-contenidos m (s ∷ xs) base pid offset cantidad =
    elim (Bool-cases (s.direccion_virtual == base && s.process_id == pid)) [
      | inl hit ↦ elim (Bool-cases (leb (offset + cantidad) s.tamano_segmento)) [
        | inl fits ↦
            rw (hit, fits)
              (ap hecho (
                sym (
                  take-drop-read_bytes m s.direccion_real s.tamano_segmento offset cantidad
                    (leb→le _ _ fits))))
        | inr big ↦ rw (hit, big)
      ]
      | inr miss ↦ rw miss (lectura-contenidos m xs base pid offset cantidad)
    ]

-- Holes are not found under the PID of a process.
buscar_segmento-ocupados :
    (xs : List Segmento) (base pid : ℕ)
    → pid ≢ minus_one
    → buscar_segmento (ocupados xs) base pid ≡ buscar_segmento xs base pid
unfolding buscar_segmento
buscar_segmento-ocupados [] base pid n = refl
buscar_segmento-ocupados (s ∷ xs) base pid n =
    ground (arith, buscar_segmento-ocupados xs base pid n)

buscar_segmento-append :
    (xs : List Segmento) (h : Segmento) (base pid : ℕ)
    → pid ≢ minus_one
    → h.process_id ≡ minus_one
    → buscar_segmento (xs ++ h ∷ []) base pid ≡ buscar_segmento xs base pid
unfolding buscar_segmento
buscar_segmento-append [] h base pid n e = ground arith
buscar_segmento-append (s ∷ xs) h base pid n e =
    ground (arith, buscar_segmento-append xs h base pid n e)

module _ (u v : Umv) (i : IsValid u) (c : Compactado u v) where
  buscar_segmento-usados :
      (base pid : ℕ)
      → pid ≢ minus_one
      → buscar_segmento v.lista_de_segmentos base pid ≡ buscar_segmento c.usados base pid
  buscar_segmento-usados base pid n = elim c.final [
    | inl (e, full) ↦ rw e
    | inr (h, e, hole, at, size) ↦ rw e (buscar_segmento-append c.usados h base pid n hole)
  ]

  leer_bytes-Compactado :
      (base offset cantidad pid : ℕ)
      → pid ≢ minus_one
      → offset + cantidad < 2 ^ 31
      → leer_bytes v base offset cantidad pid ≡ leer_bytes u base offset cantidad pid
  leer_bytes-Compactado base offset cantidad pid n small =
      let xs = u.lista_de_segmentos in
      let of = lectura v.memoria offset cantidad in
      leer_bytes_lem v base offset cantidad pid (Compactado-IsValid u v i c) small
      ∙ ap of (buscar_segmento-usados base pid n)
      ∙ lectura-contenidos v.memoria c.usados base pid offset cantidad
      ∙ ap (λ cs. lectura_de cs base pid offset cantidad) c.mismos
      ∙ sym (lectura-contenidos u.memoria (ocupados xs) base pid offset cantidad)
      ∙ ap (lectura u.memoria offset cantidad) (buscar_segmento-ocupados xs base pid n)
      ∙ sym (leer_bytes_lem u base offset cantidad pid i small)

module _ (lib : ListOps Segmento) (u : Umv) where
  -- On a valid table that is sorted by address, with no empty used segment, where each used segment
  -- either stays or goes down by its size at least, every read that a process can make, with an offset
  -- and a length that are not negative and whose sum is an `int`, gives the same answer after
  -- `compactador` as before it, refusals included.
  pub compactador_transparente :
      (base offset cantidad pid : ℕ)
      → IsValid u
      → Ordered direccion u.lista_de_segmentos
      → All Positivo (ocupados u.lista_de_segmentos)
      → SinSolape u.inicio_malloc (ocupados u.lista_de_segmentos)
      → pid ≢ minus_one
      → offset + cantidad < 2 ^ 31
      → leer_bytes (compactador lib u) base offset cantidad pid
        ≡ leer_bytes u base offset cantidad pid
  compactador_transparente base offset cantidad pid i o p a n small =
      leer_bytes-Compactado u (compactador lib u) i (compactador-Compactado lib u i o p a) base
        offset cantidad pid n small

  -- On a valid table that is sorted by address, with no empty used segment, `compactador` leaves a valid
  -- table in which just as much is used.
  pub compactador-IsValid :
      IsValid u
      → Ordered direccion u.lista_de_segmentos
      → All Positivo (ocupados u.lista_de_segmentos)
      → IsValid (compactador lib u)
        × (usado (compactador lib u).lista_de_segmentos ≡ usado u.lista_de_segmentos)
  compactador-IsValid i o p =
      let (v, m, c, same) = compactador-tabla lib u i o p in
      let valid = memoria-IsValid v m (Compactado-IsValid u v i c) in
      subst (λ (w : Umv). IsValid w × (usado w.lista_de_segmentos ≡ usado u.lista_de_segmentos))
        (sym same) (valid, Compactado-usado u v i c)
