-- ===== src/Kernel/Mensajes/Pcbs.antt =====
-- `unserializePCB` of proyectoKernel/globals.c on the bytes of a PCB.
use personal_copy_tp.Common.{
  ℕ, ◌^◌, ◌<◌, ◌≡◌, ap, ◌∙◌, List, ◌++◌, Option, some, drop, encode_int, decode_int,
  decode-encode_int,
}
use personal_copy_tp.Kernel.{Pcb}
use personal_copy_tp.Kernel.Mensajes.{◌>>=◌, unserialize_pcb}

-- The fields are `uint32_t`.
pub record EsPcb (p : Pcb) : Type 0 where
  pub pid : p.pid < 2 ^ 32
  pub code_segment : p.code_segment < 2 ^ 32
  pub size : p.current_stack.size < 2 ^ 32
  pub base : p.current_stack.base < 2 ^ 32
  pub context_size : p.current_stack.context_size < 2 ^ 32
  pub stack_pointer : p.current_stack.stack_pointer < 2 ^ 32
  pub code_index : p.code_index < 2 ^ 32
  pub indice_etiquetas : p.indice_etiquetas < 2 ^ 32
  pub program_counter : p.program_counter < 2 ^ 32
  pub tamanio_indice_etiquetas : p.tamanio_indice_etiquetas < 2 ^ 32

-- The bytes of a `t_pcb`, with what follows them in the packet.
abbrev pub bytes_de_pcb : Pcb → List ℕ → List ℕ
bytes_de_pcb p resto =
    encode_int p.pid
    ++ (encode_int p.code_segment
        ++ (encode_int p.current_stack.size
            ++ (encode_int p.current_stack.base
                ++ (encode_int p.current_stack.context_size
                    ++ (encode_int p.current_stack.stack_pointer
                        ++ (encode_int p.code_index
                            ++ (encode_int p.indice_etiquetas
                                ++ (encode_int p.program_counter
                                    ++ (encode_int p.tamanio_indice_etiquetas ++ resto)))))))))

-- The first step of a chain.
pub paso {ℓ κ} :
    {A : Type ℓ} {B : Type κ} (o : Option A) (f : A → Option B) {a : A}
    → o ≡ some a
    → (o >>= f) ≡ f a
paso o f e = ap (λ x. x >>= f) e

pub unserialize_pcb_lem :
    (p : Pcb) (resto : List ℕ) → EsPcb p → unserialize_pcb (bytes_de_pcb p resto) ≡ some p
unfolding unserialize_pcb encode_int
unserialize_pcb_lem p resto k =
    let bytes = bytes_de_pcb p resto in
    paso (decode_int bytes) _ (decode-encode_int p.pid _ k.pid)
    ∙ paso (decode_int (drop 4 bytes)) _ (decode-encode_int p.code_segment _ k.code_segment)
    ∙ paso (decode_int (drop 8 bytes)) _ (decode-encode_int p.current_stack.size _ k.size)
    ∙ paso (decode_int (drop 12 bytes)) _ (decode-encode_int p.current_stack.base _ k.base)
    ∙ paso (decode_int (drop 16 bytes)) _
        (decode-encode_int p.current_stack.context_size _ k.context_size)
    ∙ paso (decode_int (drop 20 bytes)) _
        (decode-encode_int p.current_stack.stack_pointer _ k.stack_pointer)
    ∙ paso (decode_int (drop 24 bytes)) _ (decode-encode_int p.code_index _ k.code_index)
    ∙ paso (decode_int (drop 28 bytes)) _
        (decode-encode_int p.indice_etiquetas _ k.indice_etiquetas)
    ∙ paso (decode_int (drop 32 bytes)) _ (decode-encode_int p.program_counter _ k.program_counter)
    ∙ paso (decode_int (drop 36 bytes)) _
        (decode-encode_int p.tamanio_indice_etiquetas _ k.tamanio_indice_etiquetas)
