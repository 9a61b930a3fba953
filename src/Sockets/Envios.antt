-- ===== src/Sockets/Envios.antt =====
-- The loop of `common_send` in conitos-estaCoverflow/common_sockets.c: right when `send` takes all at
-- once, wrong from its second round on, since `offset` is set and not advanced.
use personal_copy_tp.Common.{
  ℕ, ◌+◌, ◌-◌, ◌^◌, ◌<◌, ◌≤◌, ◌≡◌, ap, ◌∙◌, List, [], ◌∷◌, ◌++◌, Option, some, true, false,
  if◌then◌else◌, length, take, drop, take_all, arith, encode_int, int_add, int_sub, int_ltb, leb,
}
use personal_copy_tp.Sockets.{enviado, enviar_desde, common_send}
use mathlib.Core.List.{append-nil}
use personal_copy_tp.Sockets.RoundTrip.{common_serializer_lem}
use personal_copy_tp.Sockets.Paquetes.{paquete}

abbrev pub en_el_cable : ℕ → List ℕ → List ℕ
en_el_cable codigo bytes = encode_int codigo ++ encode_int (length bytes) ++ bytes

length-en_el_cable :
    (codigo : ℕ) (bytes : List ℕ) → length (en_el_cable codigo bytes) ≡ length bytes + 8
unfolding encode_int
length-en_el_cable codigo bytes = omega arith

-- One round, `k` of the `total - offset` bytes asked for being taken.
enviar_desde-step :
    (buffer : List ℕ) (total offset : ℕ) (salida : List ℕ) (k : ℕ) (rs : List (Option ℕ))
    → total < 2 ^ 31
    → k + offset ≤ total
    → total ≤ length buffer
    → enviar_desde buffer total offset salida (some k ∷ rs) ≡ (
        if int_ltb k total
        then enviar_desde buffer (total - k) k (salida ++ take k (drop offset buffer)) rs
        else enviado (salida ++ take k (drop offset buffer)))
unfolding enviar_desde
enviar_desde-step buffer total offset salida k rs small below inside =
    let asked : int_sub total offset ≡ total - offset = omega arith in
    let left : int_sub total k ≡ total - k = omega arith in
    let all : leb k (total - offset) ≡ true = ground arith in
    let fits : leb (offset + (total - offset)) (length buffer) ≡ true = ground arith in
    rw (asked, all, left, fits)

common_send-enviar_desde :
    (codigo : ℕ) (bytes : List ℕ) (rs : List (Option ℕ))
    → length bytes + 8 < 2 ^ 31
    → common_send (paquete codigo bytes) rs
      ≡ some (enviar_desde (en_el_cable codigo bytes) (length bytes + 8) 0 [] rs)
unfolding common_send
common_send-enviar_desde codigo bytes rs small =
    let size : int_add (length bytes) 8 ≡ length bytes + 8 = omega arith in
    rw (common_serializer_lem codigo bytes, common_send, size)

-- If `send` takes the whole packet in one call, the loop ends and what went out is the packet, header
-- first.
pub common_send_entero :
    (codigo : ℕ) (bytes : List ℕ) (rs : List (Option ℕ))
    → length bytes + 8 < 2 ^ 31
    → common_send (paquete codigo bytes) (some (length bytes + 8) ∷ rs)
      ≡ some (enviado (en_el_cable codigo bytes))
common_send_entero codigo bytes rs small =
    let len = length-en_el_cable codigo bytes in
    let done : int_ltb (length bytes + 8) (length bytes + 8) ≡ false = ground arith in
    common_send-enviar_desde codigo bytes (some (length bytes + 8) ∷ rs) small
    ∙ ap some (
        enviar_desde-step (en_el_cable codigo bytes) (length bytes + 8) 0 [] (length bytes + 8) rs
          small (omega arith) (omega arith)
        ∙ rw done
            (ap enviado (take_all (length bytes + 8) (en_el_cable codigo bytes) (omega arith))))

-- If `send` takes half of a packet, which has 2k bytes with its header, then nothing, and then the half
-- that it is asked for, the loop ends with the first half sent twice and the second half never.
pub common_send_mitad :
    (codigo k : ℕ) (bytes : List ℕ) (rs : List (Option ℕ))
    → length bytes + 8 < 2 ^ 31
    → length bytes + 8 ≡ k + k
    → common_send (paquete codigo bytes) (some k ∷ some 0 ∷ some k ∷ rs)
      ≡ some (enviado (take k (en_el_cable codigo bytes) ++ take k (en_el_cable codigo bytes)))
common_send_mitad codigo k bytes rs small half =
    let b = en_el_cable codigo bytes in
    let len = length-en_el_cable codigo bytes in
    let total = length bytes + 8 in
    let first : int_ltb k total ≡ true = ground arith in
    let second : int_ltb 0 (total - k) ≡ true = ground arith in
    let third : int_ltb k (total - k - 0) ≡ false = ground arith in
    common_send-enviar_desde codigo bytes (some k ∷ some 0 ∷ some k ∷ rs) small
    ∙ ap some (
        enviar_desde-step b total 0 [] k (some 0 ∷ some k ∷ rs) small (omega arith) (omega arith)
        ∙ rw first (
            enviar_desde-step b (total - k) k (take k b) 0 (some k ∷ rs) (omega arith) (omega arith)
              (omega arith)
            ∙ rw second (
                enviar_desde-step b (total - k - 0) 0 (take k b ++ []) k rs (omega arith)
                  (omega arith) (omega arith)
                ∙ rw third (ap (λ (x : List ℕ). enviado (x ++ take k b)) (append-nil (take k b))))))
