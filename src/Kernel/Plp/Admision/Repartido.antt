-- ===== src/Kernel/Plp/Admision/Repartido.antt =====
-- The segments that `atenderProgramaEntrante` of proyectoKernel/plp.c fills, when the memory server granted them all.
use personal_copy_tp.Common.{
  ℕ, ◌+◌, ◌^◌, ◌<◌, ◌≡◌, ◌≢◌, sym, ◌∙◌, ap, inl, List, [], ◌∷◌, ◌++◌, some, length, take_all, arith,
  length-append, encode_int,
}
use mathlib.Core.List.{append-nil}
use personal_copy_tp.Commons.{ListOps}
use personal_copy_tp.Sockets.Paquetes.{paquete, pedir_paquete_lem, copiar_all}
use personal_copy_tp.Umv.Estado.{Segmento, Umv}
use personal_copy_tp.Umv.Invariante.{IsValid}
use personal_copy_tp.Umv.Acceso.{hecho, leer_bytes, pegar_bytes}
use personal_copy_tp.Umv.Acceso.Aislamiento.{leer-pegar_bytes, leer-pegar_bytes_otro}
use personal_copy_tp.Umv.Servidor.{kernel_escribir_segmento_umv}
use personal_copy_tp.Umv.Servidor.Campos.{mensaje}
use personal_copy_tp.Kernel.Plp.{paquete_escribir_indice}
use personal_copy_tp.Kernel.Plp.Segmentos.{paquete_escribir_indice_lem}
use personal_copy_tp.Kernel.Plp.Admision.{
  Metadata, tamanio_indice, paquete_codigo, paquete_etiquetas, escribir_segmentos,
}
use personal_copy_tp.Kernel.Plp.Admision.Escrituras.{
  Alojado, escrito, Alojado-corto, pegar_bytes-Alojado, escrito-IsValid, escribir_en-Alojado,
}

-- The three segments that are filled have room, at three addresses, on a valid table, and the parser's sizes
-- are those of its texts.
pub record Repartido (u : Umv) (pid : ℕ) (programa : List ℕ) (m : Metadata)
    (codigo indice etiquetas : ℕ) : Type 0 where
  pub valida : IsValid u
  pub de_codigo : Alojado u pid codigo (length programa)
  pub de_indice : Alojado u pid indice (length m.instrucciones_serializado)
  pub de_etiquetas : Alojado u pid etiquetas (length m.etiquetas)
  pub largo_indice : length m.instrucciones_serializado ≡ tamanio_indice m
  pub largo_etiquetas : length m.etiquetas ≡ m.etiquetas_size
  pub codigo_indice : codigo ≢ indice
  pub codigo_etiquetas : codigo ≢ etiquetas
  pub indice_etiquetas : indice ≢ etiquetas

pub Alojado-escrito :
    {u : Umv} {pid dir n pid' dir' n' : ℕ} (a : Alojado u pid dir n) (bytes : List ℕ)
    → Alojado u pid' dir' n'
    → Alojado (escrito u a bytes) pid' dir' n'
Alojado-escrito a bytes b = record {
  segmento = b.segmento;
  hallado = b.hallado;
  caben = b.caben;
  lleno = b.lleno;
  direccion = b.direccion;
}

paquete_codigo_lem :
    (pid dir : ℕ) (programa : List ℕ)
    → paquete_codigo pid dir programa
      ≡ some (
          paquete kernel_escribir_segmento_umv (mensaje pid (length programa) dir (programa ++ [])))
unfolding paquete_codigo encode_int
paquete_codigo_lem pid dir programa =
    let datos = mensaje pid (length programa) dir programa in
    let size : 12 + length programa ≡ length datos = omega arith in
    rw (size, paquete_codigo) (pedir_paquete_lem datos kernel_escribir_segmento_umv)
    ∙ ap (λ xs. some (paquete kernel_escribir_segmento_umv (mensaje pid (length programa) dir xs)))
        (sym (append-nil programa))

paquete_etiquetas_lem :
    (sobra pid dir : ℕ) (m : Metadata)
    → length m.etiquetas ≡ m.etiquetas_size
    → paquete_etiquetas sobra pid dir m
      ≡ some (
          paquete kernel_escribir_segmento_umv
            (mensaje pid (length m.etiquetas) dir (m.etiquetas ++ sobra ∷ [])))
unfolding paquete_etiquetas encode_int
paquete_etiquetas_lem sobra pid dir m e =
    let datos = mensaje pid (length m.etiquetas) dir (m.etiquetas ++ sobra ∷ []) in
    let size : length m.etiquetas + 1 + 12 ≡ length datos =
      omega (arith, length-append m.etiquetas (sobra ∷ [])) in
    rw (sym e, paquete_etiquetas, copiar_all m.etiquetas, size)
      (pedir_paquete_lem datos kernel_escribir_segmento_umv)

paquete_indice_lem :
    (pid dir : ℕ) (m : Metadata)
    → length m.instrucciones_serializado ≡ tamanio_indice m
    → length m.instrucciones_serializado < 2 ^ 31
    → paquete_escribir_indice pid (tamanio_indice m) dir m.instrucciones_serializado
      ≡ some (
          paquete kernel_escribir_segmento_umv (
            mensaje pid
              (length m.instrucciones_serializado)
              dir
              (m.instrucciones_serializado ++ [])))
paquete_indice_lem pid dir m e h =
    let bytes = m.instrucciones_serializado in
    ap (λ n. paquete_escribir_indice pid n dir bytes) (sym e)
    ∙ paquete_escribir_indice_lem pid dir bytes h
    ∙ ap (λ xs. some (paquete kernel_escribir_segmento_umv (mensaje pid (length bytes) dir xs)))
        (sym (append-nil bytes))

leer_todo :
    (u : Umv) (bytes : List ℕ) (dir pid : ℕ) {v : Umv}
    → length bytes < 2 ^ 31
    → pegar_bytes u bytes dir 0 (length bytes) pid ≡ hecho v
    → leer_bytes v dir 0 (length bytes) pid ≡ hecho bytes
leer_todo u bytes dir pid h e =
    leer-pegar_bytes u bytes dir 0 (length bytes) pid h e
    ∙ ap hecho (take_all (length bytes) bytes (omega arith))

leer_otro :
    (u : Umv) (bytes : List ℕ) (dir dir' n pid : ℕ) {v : Umv}
    → IsValid u
    → length bytes < 2 ^ 31
    → n < 2 ^ 31
    → dir ≢ dir'
    → pegar_bytes u bytes dir 0 (length bytes) pid ≡ hecho v
    → leer_bytes v dir' 0 n pid ≡ leer_bytes u dir' 0 n pid
leer_otro u bytes dir dir' n pid i h k d e =
    leer-pegar_bytes_otro u bytes dir 0 pid dir' 0 n pid i (omega arith) (omega arith) (inl d) e

module _ (u : Umv) (pid : ℕ) (programa : List ℕ) (m : Metadata) (codigo indice etiquetas : ℕ)
    (r : Repartido u pid programa m codigo indice etiquetas) (hp : pid < 2 ^ 32) where
  abbrev con_codigo : Umv
  con_codigo = escrito u r.de_codigo programa

  abbrev indice_alli : Alojado con_codigo pid indice (length m.instrucciones_serializado)
  indice_alli = Alojado-escrito r.de_codigo programa r.de_indice

  abbrev con_indice : Umv
  con_indice = escrito con_codigo indice_alli m.instrucciones_serializado

  abbrev etiquetas_alli : Alojado con_indice pid etiquetas (length m.etiquetas)
  etiquetas_alli =
      Alojado-escrito indice_alli m.instrucciones_serializado
        (Alojado-escrito r.de_codigo programa r.de_etiquetas)

  abbrev pub con_etiquetas : Umv
  con_etiquetas = escrito con_indice etiquetas_alli m.etiquetas

  con_codigo-IsValid : IsValid con_codigo
  con_codigo-IsValid = escrito-IsValid u pid codigo programa r.valida r.de_codigo

  con_indice-IsValid : IsValid con_indice
  con_indice-IsValid =
      escrito-IsValid con_codigo pid indice m.instrucciones_serializado con_codigo-IsValid
        indice_alli

  -- The three writes all succeed.
  pub escribir_segmentos-Repartido :
      (lib : ListOps Segmento) (basura : ℕ → Segmento) (sobra : ℕ)
      → escribir_segmentos lib basura sobra u pid programa m codigo indice etiquetas
        ≡ some con_etiquetas
  unfolding escribir_segmentos
  escribir_segmentos-Repartido lib basura sobra =
      let programa_escrito =
        escribir_en-Alojado u pid codigo programa r.valida r.de_codigo lib basura []
          (paquete_codigo pid codigo programa) hp (paquete_codigo_lem pid codigo programa) in
      let indice_escrito =
        escribir_en-Alojado con_codigo pid indice m.instrucciones_serializado con_codigo-IsValid
          indice_alli lib basura []
          (paquete_escribir_indice pid (tamanio_indice m) indice m.instrucciones_serializado) hp
          (paquete_indice_lem pid indice m r.largo_indice (
            Alojado-corto con_codigo pid indice m.instrucciones_serializado con_codigo-IsValid
              indice_alli)) in
      let etiquetas_escritas =
        escribir_en-Alojado con_indice pid etiquetas m.etiquetas con_indice-IsValid etiquetas_alli
          lib basura (sobra ∷ []) (paquete_etiquetas sobra pid etiquetas m) hp
          (paquete_etiquetas_lem sobra pid etiquetas m r.largo_etiquetas) in
      rw (programa_escrito, escribir_segmentos, indice_escrito) etiquetas_escritas

  corto_indice : length m.instrucciones_serializado < 2 ^ 31
  corto_indice =
      Alojado-corto con_codigo pid indice m.instrucciones_serializado con_codigo-IsValid indice_alli

  corto_etiquetas : length m.etiquetas < 2 ^ 31
  corto_etiquetas =
      Alojado-corto con_indice pid etiquetas m.etiquetas con_indice-IsValid etiquetas_alli

  indice_pegado :
      pegar_bytes con_codigo m.instrucciones_serializado indice 0
        (length m.instrucciones_serializado)
        pid
      ≡ hecho con_indice
  indice_pegado =
      pegar_bytes-Alojado con_codigo pid indice m.instrucciones_serializado con_codigo-IsValid
        indice_alli

  etiquetas_pegadas :
      pegar_bytes con_indice m.etiquetas etiquetas 0 (length m.etiquetas) pid ≡ hecho con_etiquetas
  etiquetas_pegadas =
      pegar_bytes-Alojado con_indice pid etiquetas m.etiquetas con_indice-IsValid etiquetas_alli

  pub leer_codigo : leer_bytes con_etiquetas codigo 0 (length programa) pid ≡ hecho programa
  leer_codigo =
      let corto = Alojado-corto u pid codigo programa r.valida r.de_codigo in
      leer_otro con_indice m.etiquetas etiquetas codigo (length programa) pid con_indice-IsValid
        corto_etiquetas corto (λ e. r.codigo_etiquetas (sym e)) etiquetas_pegadas
      ∙ leer_otro con_codigo m.instrucciones_serializado indice codigo (length programa) pid
          con_codigo-IsValid corto_indice corto (λ e. r.codigo_indice (sym e)) indice_pegado
      ∙ leer_todo u programa codigo pid corto
          (pegar_bytes-Alojado u pid codigo programa r.valida r.de_codigo)

  pub leer_indice :
      leer_bytes con_etiquetas indice 0 (length m.instrucciones_serializado) pid
      ≡ hecho m.instrucciones_serializado
  leer_indice =
      leer_otro con_indice m.etiquetas etiquetas indice (length m.instrucciones_serializado) pid
        con_indice-IsValid corto_etiquetas corto_indice (λ e. r.indice_etiquetas (sym e))
        etiquetas_pegadas
      ∙ leer_todo con_codigo m.instrucciones_serializado indice pid corto_indice indice_pegado

  pub leer_etiquetas :
      leer_bytes con_etiquetas etiquetas 0 (length m.etiquetas) pid ≡ hecho m.etiquetas
  leer_etiquetas = leer_todo con_indice m.etiquetas etiquetas pid corto_etiquetas etiquetas_pegadas
