-- ===== src/Kernel/Plp/Admision/Pruebas.antt =====
-- Two programs that ask for segments: one is turned away, one is admitted.
use personal_copy_tp.Common.{ℕ, ◌%◌, ◌≡◌, ◌++◌, refl, List, [], ◌∷◌, none, some, arith, minus_one}
use personal_copy_tp.Commons.Reference.{list_ops}
use personal_copy_tp.Sockets.Paquetes.{paquete}
use personal_copy_tp.Umv.Estado.{Umv}
use personal_copy_tp.Umv.Ejemplos.{
  lib, basura, seg, pool, dos, dos-IsValid, dos-Ordered, dos-Positivo,
}
use personal_copy_tp.Kernel.{Kernel}
use personal_copy_tp.Kernel.Plp.Segmentos.{plp_pedir_segmento-cero, plp_pedir_segmento-no_alcanza}
use personal_copy_tp.Umv.Compactacion.{compactador}
use personal_copy_tp.Umv.Acceso.{denegado, leer_bytes, pegar_bytes}
use personal_copy_tp.Kernel.Plp.Admision.Repartido.{Repartido}
use personal_copy_tp.Kernel.Plp.Admision.{
  Metadata, Plp, Pedidos, pedir_segmentos, atender_literal, confirmacion,
  plp_programa_no_se_pudo_crear,
}
use personal_copy_tp.Kernel.Plp.Admision.Resultado.{atender_literal-rechazado}

abbrev sin_procesos : Kernel
sin_procesos = record {
  lista_nuevos = [];
  lista_listos = [];
  lista_ejecutando = [];
  lista_terminados = [];
  lista_cpu_libres = [];
  despachando = none;
  entregado = none;
  semaforos = [];
  dispositivos = [];
  sem_lista_nuevos = 0;
  sem_lista_listos = 0;
  sem_lista_terminados = 0;
  sem_lista_cpu = 0;
  sem_multiprog = 3;
}

abbrev inicio : Plp
inicio = record {
  kernel = sin_procesos;
  umv = record {
    configuracion = pool;
    lista_de_segmentos = [];
    algoritmo_activo = 1;
    id_siguiente = 0;
    memoria = λ q. q % 256;
    aleatorios = 500 ∷ 600 ∷ 700 ∷ 800 ∷ [];
    solapado = λ m destino origen n q. 0;
  };
  pid_actual = 0;
}

abbrev metadata : List ℕ → Metadata
metadata literal = record {
  instruccion_inicio = 0;
  instrucciones_size = 1;
  instrucciones_serializado = 0 ∷ 0 ∷ 0 ∷ 0 ∷ 5 ∷ 0 ∷ 0 ∷ 0 ∷ [];
  etiquetas_size = 3;
  etiquetas = 102 ∷ 0 ∷ 0 ∷ [];
  cantidad_de_funciones = 0;
  cantidad_de_etiquetas = 1;
}

abbrev sin_nada : List ℕ → Metadata
sin_nada literal = record {
  instruccion_inicio = 0;
  instrucciones_size = 0;
  instrucciones_serializado = [];
  etiquetas_size = 0;
  etiquetas = [];
  cantidad_de_funciones = 0;
  cantidad_de_etiquetas = 0;
}

abbrev literal : List ℕ
literal = 98 ∷ 101 ∷ 103 ∷ 105 ∷ 110 ∷ []

-- The pool after the four requests of this program.
abbrev servidos : Pedidos
servidos = record {
  codigo = some 500;
  stack = some 600;
  etiquetas = some 700;
  indice = some 800;
  error = 0;
  umv = record (inicio.umv) {
    lista_de_segmentos =
        seg 0 1 500 6 1000
        ∷ seg 2 1 600 20 1006
        ∷ seg 3 1 700 3 1026
        ∷ seg 4 1 800 8 1029
        ∷ seg 1 minus_one 0 63 1037
        ∷ [];
    id_siguiente = 4;
    aleatorios = [];
  };
}

-- The code of 31 bytes does not fit behind the two segments of `dos`.
abbrev largo : List ℕ
largo = let cinco = literal in cinco ++ cinco ++ cinco ++ cinco ++ cinco ++ cinco

abbrev lleno : Plp
lleno = record inicio { umv = dos; pid_actual = 2 }

abbrev negados : Pedidos
negados = record {
  codigo = none;
  stack = some minus_one;
  etiquetas = some minus_one;
  indice = some minus_one;
  error = 1;
  umv = compactador lib dos;
}

negados_lem : pedir_segmentos lib (λ i. basura) dos 3 31 0 (sin_nada largo) ≡ some negados
unfolding pedir_segmentos
negados_lem =
    let none_left =
      plp_pedir_segmento-no_alcanza lib basura basura dos 31 3 0 dos-IsValid dos-Ordered
        dos-Positivo (omega arith) (omega arith) (omega arith) (omega arith) in
    let nothing =
      plp_pedir_segmento-cero lib basura basura (compactador lib dos) 0 3 1 refl (omega arith) in
    rw (none_left, pedir_segmentos, nothing, nothing, nothing) refl

atender_literal-rechazado_example :
    (v : Umv) × (atender_literal lib (λ i. basura) 9 list_ops sin_nada 0 lleno largo 4
      ≡ some (record {
        plp = record lleno { umv = v; pid_actual = 3 };
        al_programa = confirmacion ∷ paquete plp_programa_no_se_pudo_crear (65 ∷ 0 ∷ []) ∷ [];
      }))
    × (leer_bytes v 500 0 4 3 ≡ denegado)
    × (pegar_bytes v (9 ∷ []) 500 0 4 3 ≡ denegado)
atender_literal-rechazado_example =
    atender_literal-rechazado lib (λ i. basura) 9 list_ops sin_nada 0 lleno largo 4 negados 500 0 4
      (9 ∷ []) dos-IsValid dos-Ordered dos-Positivo (omega arith) (omega arith) negados_lem
      (omega arith)
