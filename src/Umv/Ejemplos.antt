-- ===== src/Umv/Ejemplos.antt =====
-- Small states of the memory server of proyectoUMV, for the tests.
use personal_copy_tp.Common.{ℕ, ◌%◌, List, [], ◌∷◌, minus_one, arith, inr, refl, All}
use personal_copy_tp.Commons.{ListOps, Ordered}
use personal_copy_tp.Commons.Reference.{list_ops}
use personal_copy_tp.Umv.Estado.{Segmento, Configuracion, Umv}
use personal_copy_tp.Umv.Invariante.{IsValid}
use personal_copy_tp.Umv.Liberacion.Vacios.{ocupados}
use personal_copy_tp.Umv.Compactacion.Orden.{direccion, Positivo}

abbrev pub lib : ListOps Segmento
lib = list_ops

abbrev pub seg : ℕ → ℕ → ℕ → ℕ → ℕ → Segmento
seg id pid dir tamano real = record {
  id_segmento = id;
  process_id = pid;
  direccion_virtual = dir;
  tamano_segmento = tamano;
  direccion_real = real;
}

abbrev pub basura : Segmento
basura = seg 0 0 7 0 0

abbrev pub pool : Configuracion
pool = record { cantidad_bytes_malloc = 100; retardo = 0; inicio_malloc = 1000 }

abbrev pub umv_con : List Segmento → ℕ → Umv
umv_con xs algoritmo = record {
  configuracion = pool;
  lista_de_segmentos = xs;
  algoritmo_activo = algoritmo;
  id_siguiente = 3;
  memoria = λ q. q % 256;
  aleatorios = 77 ∷ [];
  solapado = λ m destino origen n q. 0;
}

-- Two segments, and a hole behind them.
abbrev pub dos : Umv
dos = umv_con (seg 0 1 500 40 1000 ∷ seg 1 2 600 30 1040 ∷ seg 2 minus_one 0 30 1070 ∷ []) 1

pub dos-IsValid : IsValid dos
dos-IsValid = record {
  direccionable = omega arith;
  cantidad_int = omega arith;
  tabla = record {
    en_pool = omega arith;
    separados = omega arith;
    con_dueno = omega arith;
    completa = inr refl;
  };
}

-- Two holes of 35 bytes round a segment.
abbrev pub fragmentos : ℕ → Umv
fragmentos algoritmo =
    umv_con (seg 0 minus_one 0 35 1000 ∷ seg 1 2 600 30 1035 ∷ seg 2 minus_one 0 35 1065 ∷ [])
      algoritmo

pub fragmentos-IsValid : (algoritmo : ℕ) → IsValid (fragmentos algoritmo)
fragmentos-IsValid algoritmo = record {
  direccionable = omega arith;
  cantidad_int = omega arith;
  tabla = record {
    en_pool = omega arith;
    separados = omega arith;
    con_dueno = omega arith;
    completa = inr refl;
  };
}

-- The table that first fit leaves after a free: the upper segment stands before the lower one.
abbrev pub desordenada : Umv
desordenada =
    umv_con
      (seg 1 2 600 30 1040
        ∷ seg 2 minus_one 0 30 1070
        ∷ seg 3 3 700 10 1000
        ∷ seg 0 minus_one 500 30 1010
        ∷ [])
      1

pub desordenada-IsValid : IsValid desordenada
desordenada-IsValid = record {
  direccionable = omega arith;
  cantidad_int = omega arith;
  tabla = record {
    en_pool = omega arith;
    separados = omega arith;
    con_dueno = omega arith;
    completa = inr refl;
  };
}

pub dos-Ordered : Ordered direccion dos.lista_de_segmentos
dos-Ordered = omega arith

pub dos-Positivo : All Positivo (ocupados dos.lista_de_segmentos)
dos-Positivo = omega arith

pub fragmentos-Ordered : Ordered direccion (fragmentos 1).lista_de_segmentos
fragmentos-Ordered = omega arith

pub fragmentos-Positivo : All Positivo (ocupados (fragmentos 1).lista_de_segmentos)
fragmentos-Positivo = omega arith
