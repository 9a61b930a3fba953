-- ===== src/Umv/Asignacion/Crear.antt =====
-- `crearSegmento` of proyectoUMV/umv.c under first fit: which of its outcomes a valid table gives.
use mathlib.Core.List.Permᴰ
use personal_copy_tp.Common.{
  ℕ, ◌+◌, ◌^◌, ◌≤◌, ◌<◌, ◌≡◌, refl, ap, ◌∙◌, inl, inr, List, [], ◌∷◌, Option, none, some, true,
  false, arith, ◌&&◌, int_leb, ptr_add_nonneg, All, All-perm, All-append_right, Option-cases,
  List-cases, subst, sym, minus_one,
}
use personal_copy_tp.Commons.{ListOps}
use personal_copy_tp.Umv.Estado.{Segmento, Umv, auxiliar_para_ordenar}
use personal_copy_tp.Umv.Invariante.{EnPool, TablaValida-perm, IsValid, usado, perm-nil}
use personal_copy_tp.Umv.Asignacion.Bucles.{
  Posicion, primer_vacio_lem, primer_vacio-none, vacio_para,
}
use personal_copy_tp.Umv.Asignacion.Validez.{Asignado, Asignado-perm, ocupar_vacio-Asignado}
use personal_copy_tp.Umv.Asignacion.{
  sortear_no_nulo, primer_vacio, nuevo_primero, vacio_primero, con_tabla, segmento_create,
  primer_segmento, ocupar_vacio, ordenar, first_fit_en, first_fit,
}

-- The table was empty: the segment is the first of two nodes.
pub record Primero (u v : Umv) (pid tamano dir : ℕ) : Type 0 where
  pub vacia : u.lista_de_segmentos ≡ []
  pub nuevo : Segmento
  pub hueco : Segmento
  pub tabla : v.lista_de_segmentos ≡ nuevo ∷ hueco ∷ []
  pub del_proceso : nuevo.process_id ≡ pid
  pub del_tamano : nuevo.tamano_segmento ≡ tamano
  pub en_direccion : nuevo.direccion_virtual ≡ dir
  pub al_comienzo : nuevo.direccion_real ≡ u.inicio_malloc
  pub detras : hueco.direccion_real ≡ u.inicio_malloc + tamano
  pub medidas : tamano + hueco.tamano_segmento ≡ u.cantidad_bytes_malloc
  pub libre : hueco.process_id ≡ minus_one
  pub misma_memoria : v.memoria ≡ u.memoria
  pub misma_configuracion : v.configuracion ≡ u.configuracion

pub Primero-IsValid :
    (u v : Umv) (pid tamano dir : ℕ)
    → 0 < pid
    → pid < 2 ^ 31
    → Primero u v pid tamano dir
    → IsValid u
    → IsValid v
Primero-IsValid u v pid tamano dir positive small p i = record {
  direccionable = rw p.misma_configuracion i.direccionable;
  cantidad_int = rw p.misma_configuracion i.cantidad_int;
  tabla =
      rw (p.misma_configuracion, p.tabla)
        (record {
          en_pool = (omega arith, (omega arith, tt));
          separados = ((omega arith, tt), (tt, tt));
          con_dueno = (inr (omega arith), (inl p.libre, tt));
          completa = inr (omega arith);
        });
}

module _ (lib : ListOps Segmento) where
  open lib use {list_add, list_sort, list_add_lem, list_sort_perm}

  pub ordenar-IsValid : (u : Umv) → IsValid u → IsValid (ordenar lib u)
  ordenar-IsValid u i = record {
    direccionable = i.direccionable;
    cantidad_int = i.cantidad_int;
    tabla =
        TablaValida-perm u.inicio_malloc u.cantidad_bytes_malloc
          (list_sort_perm auxiliar_para_ordenar u.lista_de_segmentos) i.tabla;
  }

  pub primer_segmento-Primero :
      (u : Umv) (datos : Segmento) {s : Segmento} {v : Umv}
      → u.lista_de_segmentos ≡ []
      → u.inicio_malloc + u.cantidad_bytes_malloc < 2 ^ 64
      → u.cantidad_bytes_malloc < 2 ^ 31
      → datos.tamano_segmento ≤ u.cantidad_bytes_malloc
      → primer_segmento lib u datos ≡ some (s, v)
      → Primero u v datos.process_id datos.tamano_segmento s.direccion_virtual
  unfolding primer_segmento
  primer_segmento-Primero u datos {s} {v} vacia dirs small fits e =
      elim (Option-cases (sortear_no_nulo u.aleatorios)) [
        | inl q ↦
            let bad : ◌≡◌ {A = Option (Segmento × Umv)} none (some (s, v)) =
              rw (q, primer_segmento) at e in
            cc
        | inr ((dir, resto), q) ↦
            let nuevo = nuevo_primero u datos dir in
            let hueco = vacio_primero u datos in
            let lista =
              segmento_create lib hueco (segmento_create lib nuevo u.lista_de_segmentos) in
            let good : ◌≡◌ {A = Option (Segmento × Umv)} (some (nuevo, con_tabla u lista resto))
                (some (s, v)) =
              rw (q, primer_segmento) at e in
            let es : nuevo ≡ s = cc in
            let ev : con_tabla u lista resto ≡ v = cc in
            subst (λ w. Primero u w datos.process_id datos.tamano_segmento s.direccion_virtual) ev
              (record {
                vacia = vacia;
                nuevo = nuevo;
                hueco = hueco;
                tabla = rw (vacia, list_add_lem [] nuevo, list_add_lem) refl;
                del_proceso = refl;
                del_tamano = refl;
                en_direccion = ap (λ t. t.direccion_virtual) es;
                al_comienzo = refl;
                detras =
                    ptr_add_nonneg u.inicio_malloc datos.tamano_segmento (omega arith)
                      (omega arith);
                medidas = omega arith;
                libre = refl;
                misma_memoria = refl;
                misma_configuracion = refl;
              })
      ]

  -- What an answer `dir` and a final state `v` come from.
  pub data Resultado (basura : Segmento) (u : Umv) (pid tamano dir : ℕ) (v : Umv) : Type 0 where
    rechazado :
        u.cantidad_bytes_malloc < usado u.lista_de_segmentos + tamano
        → dir ≡ minus_one
        → v ≡ u
        → Resultado basura u pid tamano dir v
    primero : Primero u v pid tamano dir → Resultado basura u pid tamano dir v
    asignado : Asignado u v pid tamano dir → Resultado basura u pid tamano dir v
    sin_hueco :
        usado u.lista_de_segmentos + tamano ≤ u.cantidad_bytes_malloc
        → All (λ t. (vacio_para t && int_leb tamano t.tamano_segmento) ≡ false) u.lista_de_segmentos
        → dir ≡ basura.direccion_virtual
        → v ≡ ordenar lib u
        → Resultado basura u pid tamano dir v

  pub first_fit_en-nil :
      (w : Umv) (datos : Segmento)
      → w.lista_de_segmentos ≡ []
      → int_leb datos.tamano_segmento w.cantidad_bytes_malloc ≡ true
      → first_fit_en lib w datos ≡ primer_segmento lib w datos
  unfolding first_fit_en
  first_fit_en-nil w datos e fits = ground arith

  pub first_fit_en-none :
      (w : Umv) (datos : Segmento) (x : Segmento) (xs : List Segmento)
      → w.lista_de_segmentos ≡ x ∷ xs
      → primer_vacio datos.tamano_segmento 0 w.lista_de_segmentos ≡ none
      → first_fit_en lib w datos ≡ some (datos, w)
  unfolding first_fit_en
  first_fit_en-none w datos x xs e q = ground arith

  pub first_fit_en-some :
      (w : Umv) (datos : Segmento) (x : Segmento) (xs : List Segmento) (i : ℕ) (vacio : Segmento)
      → w.lista_de_segmentos ≡ x ∷ xs
      → primer_vacio datos.tamano_segmento 0 w.lista_de_segmentos ≡ some (i, vacio)
      → first_fit_en lib w datos ≡ ocupar_vacio lib w datos i vacio
  unfolding first_fit_en
  first_fit_en-some w datos x xs i vacio e q = ground arith

  -- The node at a position has what all nodes have.
  pub Posicion-All {ℓ} :
      (P : Segmento → Type ℓ) {xs : List Segmento} {i : ℕ} {s : Segmento}
      → Posicion xs i s
      → All P xs
      → P s
  Posicion-All P p h = (All-append_right P p.antes (_ ∷ p.despues) (rw p.lista at h)).0

  pub first_fit-Resultado :
      (basura : Segmento) (u : Umv) (pid tamano : ℕ) {s : Segmento} {v : Umv}
      → IsValid u
      → usado u.lista_de_segmentos + tamano ≤ u.cantidad_bytes_malloc
      → first_fit lib u (record basura { process_id = pid; tamano_segmento = tamano }) ≡ some (s, v)
      → Resultado basura u pid tamano s.direccion_virtual v
  unfolding first_fit
  first_fit-Resultado basura u pid tamano {s} {v} i fits e =
      let w = ordenar lib u in
      let datos : Segmento = record basura { process_id = pid; tamano_segmento = tamano } in
      let sorted = list_sort_perm auxiliar_para_ordenar u.lista_de_segmentos in
      elim (List-cases w.lista_de_segmentos) [
        | inl vacia ↦
            let p =
              primer_segmento-Primero w datos vacia i.direccionable i.cantidad_int (omega arith)
                (sym (first_fit_en-nil w datos vacia (ground (arith, i.cantidad_int))) ∙ e) in
            primero (record {
              vacia = perm-nil (Permᴰ.symm sorted) vacia;
              nuevo = p.nuevo;
              hueco = p.hueco;
              tabla = p.tabla;
              del_proceso = p.del_proceso;
              del_tamano = p.del_tamano;
              en_direccion = p.en_direccion;
              al_comienzo = p.al_comienzo;
              detras = p.detras;
              medidas = p.medidas;
              libre = p.libre;
              misma_memoria = p.misma_memoria;
              misma_configuracion = p.misma_configuracion;
            })
        | inr (x, xs, llena) ↦ elim (Option-cases (primer_vacio tamano 0 w.lista_de_segmentos)) [
          | inl q ↦
              let same : ◌≡◌ {A = Option (Segmento × Umv)} (some (datos, w)) (some (s, v)) =
                sym (first_fit_en-none w datos x xs llena q) ∙ e in
              let es : datos ≡ s = cc in
              sin_hueco fits
                (All-perm (λ t. (vacio_para t && int_leb tamano t.tamano_segmento) ≡ false)
                  (Permᴰ.symm sorted) (primer_vacio-none tamano 0 w.lista_de_segmentos q))
                (sym (ap (λ t. t.direccion_virtual) es)) (cc)
          | inr ((j, vacio), q) ↦
              let (k, ej, p) = primer_vacio_lem tamano 0 w.lista_de_segmentos q in
              let at : Posicion w.lista_de_segmentos j vacio =
                subst (λ n. Posicion w.lista_de_segmentos n vacio) (omega arith) p.posicion in
              let here =
                Posicion-All (EnPool u.inicio_malloc u.cantidad_bytes_malloc) at
                  (ordenar-IsValid u i).tabla.en_pool in
              let a =
                ocupar_vacio-Asignado lib w datos j vacio i.direccionable here at p.vacio
                  (ground (arith, p.alcanza, i.cantidad_int))
                  (sym (first_fit_en-some w datos x xs j vacio llena q) ∙ e) in
              asignado (Asignado-perm u w v pid tamano s.direccion_virtual sorted refl refl a.0).0
        ]
      ]
