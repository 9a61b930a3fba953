-- ===== src/Umv/Abstracto/Pruebas.antt =====
-- The texts of the processes at a small table of proyectoUMV/umv.c.
use personal_copy_tp.Common.{
  ℕ, ◌≡◌, refl, List, [], ◌∷◌, some, none, inl, arith, write_bytes, minus_one,
}
use personal_copy_tp.Umv.Estado.{Umv, tamano_usado_del_malloc, auxiliar_para_ordenar}
use personal_copy_tp.Umv.Ejemplos.{lib, seg, basura, dos, dos-IsValid}
use personal_copy_tp.Umv.Acceso.{hecho, buscar_segmento, leer_bytes, pegar_bytes}
use personal_copy_tp.Umv.Liberacion.{destruir_segmentos}
use personal_copy_tp.Umv.Compactacion.{compactador}
use personal_copy_tp.Commons.Reference.{sort_by, add_last, remove_at}
use personal_copy_tp.Umv.Asignacion.{
  crear_segmento, first_fit, first_fit_en, primer_vacio, sortear_direccion, ocupar_vacio,
}
use personal_copy_tp.Umv.Asignacion.Bucles.{Posicion}
use personal_copy_tp.Umv.Abstracto.{vista, leer_texto}
use personal_copy_tp.Umv.Abstracto.Textos.{leer_bytes-leer_texto}
use personal_copy_tp.Umv.Abstracto.Acciones.{
  Accion, escribe, destruye, compacta, crea, Hace, Cambia, Camino, Camino-Cambia,
}

abbrev indice : List ℕ
indice = 9 ∷ 8 ∷ []

-- `dos` with a segment of 20 bytes for process 3.
abbrev tres : Umv
tres = record dos {
  lista_de_segmentos =
      seg 0 1 500 40 1000
      ∷ seg 1 2 600 30 1040
      ∷ seg 4 3 77 20 1070
      ∷ seg 2 minus_one 0 10 1090
      ∷ [];
  id_siguiente = 4;
  aleatorios = [];
}

hueco : Posicion dos.lista_de_segmentos 2 (seg 2 minus_one 0 30 1070)
hueco = record {
  antes = seg 0 1 500 40 1000 ∷ seg 1 2 600 30 1040 ∷ [];
  despues = [];
  lista = refl;
  indice = refl;
}

nadie : buscar_segmento dos.lista_de_segmentos 77 3 ≡ none
unfolding buscar_segmento
nadie = refl

creada : crear_segmento lib basura dos 3 20 ≡ some (77, tres)
unfolding crear_segmento first_fit first_fit_en primer_vacio sortear_direccion ocupar_vacio sort_by
    tamano_usado_del_malloc auxiliar_para_ordenar add_last remove_at
creada = refl

abbrev escrita : Umv
escrita = record tres { memoria = write_bytes tres.memoria 1070 indice }

escrita_lem : pegar_bytes tres indice 77 0 2 3 ≡ hecho escrita
unfolding pegar_bytes buscar_segmento
escrita_lem = refl

-- A new segment, a write into it, a compaction, and the end of another process.
abbrev acciones : List Accion
acciones = crea 3 77 20 ∷ escribe 3 77 0 indice ∷ compacta ∷ destruye 1 ∷ []

cuatro_acciones : Camino (Hace lib) acciones dos (destruir_segmentos (compactador lib escrita) 1)
unfolding Camino
cuatro_acciones = (
  tres,
  record {
    basura = basura;
    hueco = seg 2 minus_one 0 30 1070;
    lugar = 2;
    primer_ajuste = refl;
    entero = omega arith;
    alcanza = omega arith;
    no_nulo = inl (omega arith);
    posicion = hueco;
    vacio = refl;
    cabe = omega arith;
    positivo = omega arith;
    corto = omega arith;
    unicos = omega arith;
    nueva = nadie;
    hecha = creada;
  },
  (
    escrita,
    (omega arith, omega arith, escrita_lem),
    (
      compactador lib escrita,
      (omega arith, omega arith, omega arith, refl),
      (destruir_segmentos (compactador lib escrita) 1, (omega arith, refl), refl),
    ),
  ),
)

Camino-Cambia_example :
    Camino Cambia acciones (vista dos) (vista (destruir_segmentos (compactador lib escrita) 1))
Camino-Cambia_example =
    Camino-Cambia lib acciones dos (destruir_segmentos (compactador lib escrita) 1) dos-IsValid
      cuatro_acciones

leer_bytes-leer_texto_example : leer_bytes dos 600 3 10 2 ≡ leer_texto (vista dos 2 600) 3 10
leer_bytes-leer_texto_example =
    leer_bytes-leer_texto dos 600 3 10 2 dos-IsValid (omega arith) (omega arith)
