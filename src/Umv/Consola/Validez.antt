-- ===== src/Umv/Consola/Validez.antt =====
-- The console of proyectoUMV/umv.c keeps the segment table valid.
use personal_copy_tp.Common.{ℕ, ◌+◌, ◌^◌, ◌<◌, ◌≡◌, refl, inl, List, length, All, Memory}
use personal_copy_tp.Commons.{Ordered}
use personal_copy_tp.Umv.Estado.{Configuracion, Solape, Umv}
use personal_copy_tp.Umv.Invariante.{IsValid}
use personal_copy_tp.Umv.Acceso.{Acceso}
use personal_copy_tp.Umv.Liberacion.Vacios.{ocupados}
use personal_copy_tp.Umv.Compactacion.Orden.{direccion, Positivo}
use personal_copy_tp.Umv.Consola.{
  Orden, crea, elimina, destruye, compacta, retarda, cambia, muestra, lee, escribe, sale,
  cargar_configuracion,
}

-- When an order may be given: a new segment under first fit, with a PID and a size that are positive as
-- `int`s; a node to give up that is in the table; a compaction of a table sorted by address with no
-- empty used segment.
abbrev pub Admitida : Umv → Orden → Type 0
Admitida u (crea basura pid tamano) =
    (u.algoritmo_activo ≡ 1)
    × (u.cantidad_bytes_malloc + tamano < 2 ^ 31)
    × (0 < pid)
    × (pid < 2 ^ 31)
Admitida u (elimina numero) = numero < length u.lista_de_segmentos
Admitida u (destruye pid) = Unit
Admitida u compacta =
    Ordered direccion u.lista_de_segmentos × All Positivo (ocupados u.lista_de_segmentos)
Admitida u (retarda n) = Unit
Admitida u cambia = Unit
Admitida u muestra = Unit
Admitida u (lee segmento offset cantidad pid) = Unit
Admitida u (escribe texto segmento offset cantidad pid) = Unit
Admitida u sale = Unit

-- The table is valid at the start, if the pool is addressable and its size is an int.
pub cargar_configuracion-IsValid :
    (configuracion : Configuracion) (memoria : Memory) (aleatorios : List ℕ) (solapado : Solape)
    → configuracion.inicio_malloc + configuracion.cantidad_bytes_malloc < 2 ^ 64
    → configuracion.cantidad_bytes_malloc < 2 ^ 31
    → IsValid (cargar_configuracion configuracion memoria aleatorios solapado)
unfolding cargar_configuracion
cargar_configuracion-IsValid configuracion memoria aleatorios solapado h k = record {
  direccionable = h;
  cantidad_int = k;
  tabla = record { en_pool = tt; separados = tt; con_dueno = tt; completa = inl refl };
}
