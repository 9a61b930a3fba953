-- ===== src/Umv/Asignacion/Validez.antt =====
-- `firstFit`, `worstFit` and `crearSegmento` of proyectoUMV/umv.c on a valid table: a hole that is
-- large enough is cut in two, and the table stays valid.
use mathlib.Core.List.{append_assoc}
use mathlib.Core.List.Permᴰ
use personal_copy_tp.Common.{
  ℕ, ◌+◌, ◌^◌, ◌≤◌, ◌<◌, ◌≡◌, refl, ap, ◌∙◌, inl, inr, List, [], ◌∷◌, ◌++◌, Option, none, some,
  true, arith, ptr_add_nonneg, Option-cases, length, subst, Permᴰ,
}
use personal_copy_tp.Commons.{ListOps}
use personal_copy_tp.Umv.Estado.{Segmento, Umv}
use personal_copy_tp.Umv.Invariante.{EnPool, TablaValida-perm, TablaValida-split, IsValid}
use personal_copy_tp.Umv.Asignacion.Bucles.{Posicion, vacio_para}
use personal_copy_tp.Umv.Asignacion.{
  sortear_direccion, nuevo_en, sobrante_de, con_tabla, segmento_create, ocupar_vacio,
}

-- `v` is `u` with one hole cut in two, the first part the segment of `pid` at the address `dir`.
-- Memory and configuration are those of `u`.
pub record Asignado (u v : Umv) (pid tamano dir : ℕ) : Type 0 where
  pub vacio : Segmento
  pub nuevo : Segmento
  pub sobrante : Segmento
  pub resto : List Segmento
  pub antes : Permᴰ u.lista_de_segmentos (vacio ∷ resto)
  pub despues : Permᴰ v.lista_de_segmentos (nuevo ∷ sobrante ∷ resto)
  pub de_un_vacio : vacio_para vacio ≡ true
  pub del_proceso : nuevo.process_id ≡ pid
  pub del_tamano : nuevo.tamano_segmento ≡ tamano
  pub en_direccion : nuevo.direccion_virtual ≡ dir
  pub al_comienzo : nuevo.direccion_real ≡ vacio.direccion_real
  pub detras : sobrante.direccion_real ≡ vacio.direccion_real + tamano
  pub medidas : tamano + sobrante.tamano_segmento ≡ vacio.tamano_segmento
  pub mismo_dueno : sobrante.process_id ≡ vacio.process_id
  pub misma_memoria : v.memoria ≡ u.memoria
  pub misma_configuracion : v.configuracion ≡ u.configuracion

pub Asignado-IsValid :
    (u v : Umv) (pid tamano dir : ℕ)
    → 0 < pid
    → pid < 2 ^ 31
    → Asignado u v pid tamano dir
    → IsValid u
    → IsValid v
Asignado-IsValid u v pid tamano dir positive small a i = record {
  direccionable = rw a.misma_configuracion i.direccionable;
  cantidad_int = rw a.misma_configuracion i.cantidad_int;
  tabla = rw a.misma_configuracion (
      TablaValida-perm u.inicio_malloc u.cantidad_bytes_malloc (Permᴰ.symm a.despues) (
        TablaValida-split u.inicio_malloc u.cantidad_bytes_malloc a.vacio a.nuevo a.sobrante a.resto
          (TablaValida-perm u.inicio_malloc u.cantidad_bytes_malloc a.antes i.tabla) a.al_comienzo
          (omega (arith, a.detras, a.al_comienzo, a.del_tamano))
          (omega (arith, a.medidas, a.del_tamano)) (inr (omega (arith, a.del_proceso)))
          a.mismo_dueno));
}

-- The sort that comes first changes only the order of the table.
pub Asignado-perm :
    (u w v : Umv) (pid tamano dir : ℕ)
    → Permᴰ u.lista_de_segmentos w.lista_de_segmentos
    → w.memoria ≡ u.memoria
    → w.configuracion ≡ u.configuracion
    → (a : Asignado w v pid tamano dir) → (b : Asignado u v pid tamano dir) × (b.vacio ≡ a.vacio)
Asignado-perm u w v pid tamano dir d em ec a = (
  record {
    vacio = a.vacio;
    nuevo = a.nuevo;
    sobrante = a.sobrante;
    resto = a.resto;
    antes = Permᴰ.trans d a.antes;
    despues = a.despues;
    de_un_vacio = a.de_un_vacio;
    del_proceso = a.del_proceso;
    del_tamano = a.del_tamano;
    en_direccion = a.en_direccion;
    al_comienzo = a.al_comienzo;
    detras = a.detras;
    medidas = a.medidas;
    mismo_dueno = a.mismo_dueno;
    misma_memoria = a.misma_memoria ∙ em;
    misma_configuracion = a.misma_configuracion ∙ ec;
  },
  refl,
)

module _ (lib : ListOps Segmento) where
  open lib use {list_add, list_remove, list_sort, list_add_lem, list_remove_lem, list_sort_perm}

  pub tabla_tras_ocupar :
      (xs ys : List Segmento) (h a b : Segmento)
      → list_add (list_remove (list_add (xs ++ h ∷ ys) a) (length xs)) b ≡ (xs ++ ys) ++ a ∷ b ∷ []
  tabla_tras_ocupar xs ys h a b =
      rw
        (
          list_add_lem (xs ++ h ∷ ys) a,
          append_assoc xs (h ∷ ys) (a ∷ []),
          list_remove_lem xs (ys ++ a ∷ []) h,
          list_add_lem,
        )
        (simp append_assoc)

  abbrev pub tabla_ocupada : Umv → Segmento → ℕ → Segmento → ℕ → List Segmento
  tabla_ocupada u datos i vacio dir =
      segmento_create lib (sobrante_de datos vacio)
        (list_remove (segmento_create lib (nuevo_en u datos vacio dir) u.lista_de_segmentos) i)

  pub ocupar_vacio-some :
      (u : Umv) (datos : Segmento) (i : ℕ) (vacio : Segmento) {s : Segmento} {v : Umv}
      → ocupar_vacio lib u datos i vacio ≡ some (s, v)
      → (dir : ℕ) × (resto : List ℕ) × (nuevo_en u datos vacio dir ≡ s)
        × (con_tabla u (tabla_ocupada u datos i vacio dir) resto ≡ v)
  unfolding ocupar_vacio
  ocupar_vacio-some u datos i vacio {s} {v} e =
      elim (Option-cases (sortear_direccion u.lista_de_segmentos u.aleatorios)) [
        | inl q ↦
            let bad : ◌≡◌ {A = Option (Segmento × Umv)} none (some (s, v)) =
              rw (q, ocupar_vacio) at e in
            cc
        | inr ((dir, resto), q) ↦
            let good : ◌≡◌ {A = Option (Segmento × Umv)}
                (some (
                  nuevo_en u datos vacio dir,
                  con_tabla u (tabla_ocupada u datos i vacio dir) resto,
                ))
                (some (s, v)) =
              rw (q, ocupar_vacio) at e in
            (dir, resto, cc, cc)
      ]

  pub ocupar_vacio-Asignado :
      (u : Umv) (datos : Segmento) (i : ℕ) (vacio : Segmento) {s : Segmento} {v : Umv}
      → u.inicio_malloc + u.cantidad_bytes_malloc < 2 ^ 64
      → EnPool u.inicio_malloc u.cantidad_bytes_malloc vacio
      → Posicion u.lista_de_segmentos i vacio
      → vacio_para vacio ≡ true
      → datos.tamano_segmento ≤ vacio.tamano_segmento
      → ocupar_vacio lib u datos i vacio ≡ some (s, v)
      → (a : Asignado u v datos.process_id datos.tamano_segmento s.direccion_virtual) × (a.vacio
          ≡ vacio)
  ocupar_vacio-Asignado u datos i vacio {s} {v} dirs p pos hole fits e =
      let (dir, resto, es, ev) = ocupar_vacio-some u datos i vacio e in
      subst
        (λ w.
          (a : Asignado u w datos.process_id datos.tamano_segmento s.direccion_virtual) × (a.vacio
            ≡ vacio))
        ev
        (
          record {
            vacio = vacio;
            nuevo = nuevo_en u datos vacio dir;
            sobrante = sobrante_de datos vacio;
            resto = pos.antes ++ pos.despues;
            antes = rw pos.lista (Permᴰ.middle vacio pos.antes pos.despues);
            despues =
                rw (pos.lista, pos.indice, tabla_tras_ocupar)
                  (Permᴰ.append_comm (pos.antes ++ pos.despues)
                    (nuevo_en u datos vacio dir ∷ sobrante_de datos vacio ∷ []));
            de_un_vacio = hole;
            del_proceso = refl;
            del_tamano = refl;
            en_direccion = ap (λ t. t.direccion_virtual) es;
            al_comienzo = refl;
            detras =
                ptr_add_nonneg vacio.direccion_real datos.tamano_segmento (omega arith)
                  (omega arith);
            medidas = omega arith;
            mismo_dueno = refl;
            misma_memoria = refl;
            misma_configuracion = refl;
          },
          refl,
        )
