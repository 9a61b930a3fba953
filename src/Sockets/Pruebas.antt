-- ===== src/Sockets/Pruebas.antt =====
-- The theorems on packets at small ones.
use personal_copy_tp.Common.{ℕ, ◌≡◌, refl, List, [], ◌∷◌, ◌++◌, arith, some, false, take}
use personal_copy_tp.Sockets.{
  common_serializer, common_receive, common_send, recibido, cerrada, enviado,
}
use personal_copy_tp.Sockets.Paquetes.{paquete}
use personal_copy_tp.Sockets.RoundTrip.{common_receive-serializer, common_receive_vacio}
use personal_copy_tp.Sockets.Envios.{en_el_cable, common_send_mitad}

abbrev bytes : List ℕ
bytes = 79 ∷ 75 ∷ []

common_receive-serializer_example :
    (buffer : List ℕ) × (common_serializer (paquete 5 bytes) ≡ some buffer)
    × (common_receive (record { llegan = buffer ++ 1 ∷ []; cortada = false })
        ≡ recibido (paquete 5 bytes) (record { llegan = 1 ∷ []; cortada = false }))
common_receive-serializer_example =
    common_receive-serializer 5 79 (75 ∷ []) (1 ∷ []) false (omega arith) (omega arith)

common_receive_vacio_example :
    (buffer : List ℕ) × (common_serializer (paquete 5 []) ≡ some buffer)
    × (common_receive (record { llegan = buffer ++ 1 ∷ []; cortada = false }) ≡ cerrada)
common_receive_vacio_example = common_receive_vacio 5 (1 ∷ []) false (omega arith)

common_send_mitad_example :
    common_send (paquete 5 bytes) (some 5 ∷ some 0 ∷ some 5 ∷ [])
    ≡ some (enviado (take 5 (en_el_cable 5 bytes) ++ take 5 (en_el_cable 5 bytes)))
common_send_mitad_example = common_send_mitad 5 5 bytes [] (omega arith) refl
