-- ===== src/Cpu/Primitivas/Llamadas/Pruebas.antt =====
-- The theorems on calls, variables and names at a small stack segment.
use personal_copy_tp.Common.{
  ℕ, ◌≡◌, refl, false, List, [], ◌∷◌, some, arith, decode_int, read_bytes,
}
use personal_copy_tp.Commons.Strings.{string_ops}
use personal_copy_tp.Sockets.{Paquete}
use personal_copy_tp.Kernel.Mensajes.{unserialize_pcb}
use personal_copy_tp.Kernel.Mensajes.Pcbs.{EsPcb}
use personal_copy_tp.Umv.Estado.{Segmento}
use personal_copy_tp.Umv.Ejemplos.{seg}
use personal_copy_tp.Umv.Acceso.{buscar_segmento}
use personal_copy_tp.Cpu.Primitivas.Textos.{remove_new_line, isalnum}
use personal_copy_tp.Cpu.Primitivas.Textos.Corte.{remove_new_line_lem}
use personal_copy_tp.Cpu.Primitivas.{
  Cpu, vale, normal, pila, definir_variable, asignar, desreferenciar,
}
use personal_copy_tp.Cpu.Primitivas.Pruebas.{cpu}
use personal_copy_tp.Cpu.Primitivas.Llamadas.{
  terminar_proceso, finalizar, retornar, obtener_posicion_variable,
}
use personal_copy_tp.Cpu.Primitivas.Llamadas.Regreso.{llamado, llamar_sin_retorno_lem, devuelto}
use personal_copy_tp.Cpu.Primitivas.Llamadas.Contexto.{
  Coherente, Conserva, llamar_sin_retorno-finalizar,
}
use personal_copy_tp.Cpu.Primitivas.Llamadas.Definiciones.{
  definir_variable-Coherente, asignar-Coherente, desreferenciar_lem,
}
use personal_copy_tp.Cpu.Primitivas.Llamadas.Fin.{terminar_proceso-unserialize_pcb}
use personal_copy_tp.Cpu.Primitivas.Llamadas.Retorno.{llamado_con_retorno, llamar_con_retorno_lem}
use personal_copy_tp.Cpu.Primitivas.Llamadas.Resultado.{con_valor, llamar_con_retorno-retornar}

-- The segment of the stack.
abbrev segmento : Segmento
segmento = seg 1 2 600 30 1040

-- Two variables, whose names are the bytes that stand on the stack.
abbrev dos_variables : Cpu
dos_variables = record (cpu 2) { variables = (21, 605) ∷ (16, 600) ∷ [] }

dos_variables-Coherente : Coherente dos_variables segmento
unfolding buscar_segmento
dos_variables-Coherente = record {
  en = record {
    hallado = refl;
    tamano_int = omega arith;
    direccionable = omega arith;
    base_int = omega arith;
    base_le = omega arith;
  };
  dentro = omega arith;
  diccionario = refl;
}

-- The label "f", with a line feed behind it.
abbrev etiqueta : List ℕ
etiqueta = 102 ∷ 10 ∷ []

etiqueta_lem : remove_new_line string_ops etiqueta ≡ some (102 ∷ [])
unfolding isalnum
etiqueta_lem = remove_new_line_lem string_ops [] 102 (10 ∷ []) refl (refl, tt)

remove_new_line_lem_example :
    remove_new_line string_ops (49 ∷ 95 ∷ 97 ∷ 10 ∷ []) ≡ some (49 ∷ 95 ∷ 97 ∷ [])
unfolding isalnum
remove_new_line_lem_example =
    remove_new_line_lem string_ops (49 ∷ 95 ∷ []) 97 (10 ∷ []) refl (refl, tt)

abbrev buscar : List ℕ → List ℕ → ℕ → ℕ
buscar nombre etiquetas tamanio = 8

abbrev dentro_de : Cpu
dentro_de = llamado string_ops buscar dos_variables segmento (102 ∷ [])

sin_cambios : Conserva dentro_de dentro_de segmento
unfolding buscar_segmento
sin_cambios = record {
  sigue = refl;
  misma_base = refl;
  mismo_tope = refl;
  hallado = refl;
  debajo = λ q h. refl;
}

llamar_sin_retorno-finalizar_example :
    finalizar dentro_de ≡ vale (devuelto dentro_de 0 600 2 dos_variables.variables) tt
llamar_sin_retorno-finalizar_example =
    llamar_sin_retorno-finalizar string_ops buscar dos_variables segmento etiqueta
      dos_variables-Coherente refl (omega arith) (omega arith) etiqueta_lem
      (llamar_sin_retorno_lem string_ops buscar dos_variables segmento etiqueta
        dos_variables-Coherente.en refl (omega arith) etiqueta_lem)
      sin_cambios

abbrev con_lugar : Cpu
con_lugar = llamado_con_retorno string_ops buscar dos_variables segmento (102 ∷ []) 606

lugar_sin_cambios : Conserva con_lugar con_lugar segmento
unfolding buscar_segmento
lugar_sin_cambios = record {
  sigue = refl;
  misma_base = refl;
  mismo_tope = refl;
  hallado = refl;
  debajo = λ q h. refl;
}

llamar_con_retorno-retornar_example :
    (retornar con_lugar 9 ≡ vale (con_valor dos_variables con_lugar segmento 1 9) tt)
    × (desreferenciar (con_valor dos_variables con_lugar segmento 1 9) 606 []
        ≡ vale (con_valor dos_variables con_lugar segmento 1 9) 9)
llamar_con_retorno-retornar_example =
    llamar_con_retorno-retornar string_ops buscar dos_variables segmento 1 9 etiqueta []
      dos_variables-Coherente refl (omega arith) (omega arith) (omega arith) (omega arith)
      etiqueta_lem
      (llamar_con_retorno_lem string_ops buscar dos_variables segmento etiqueta 606
        dos_variables-Coherente.en refl (omega arith) etiqueta_lem)
      lugar_sin_cambios

definir_variable-Coherente_example :
    (d : Cpu) × (posicion : ℕ) × (definir_variable dos_variables 120 [] ≡ vale d posicion)
    × (obtener_posicion_variable d 120 ≡ vale d posicion)
    × ((pila d).context_size ≡ 3)
    × (d.estado ≡ normal)
    × Coherente d segmento
definir_variable-Coherente_example =
    definir_variable-Coherente dos_variables segmento 120 [] dos_variables-Coherente refl
      (omega arith)

-- The bytes 22, 23, 24 and 25 of the second variable.
segunda_lem : desreferenciar dos_variables 606 [] ≡ vale dos_variables 421009174
unfolding read_bytes decode_int
segunda_lem =
    desreferenciar_lem dos_variables segmento 1 [] dos_variables-Coherente.en refl (omega arith)

asignar-Coherente_example :
    (d : Cpu) × (asignar dos_variables 601 7 [] ≡ vale d tt)
    × (desreferenciar d 601 [] ≡ vale d 7)
    × (desreferenciar d 606 [] ≡ vale d 421009174)
    × (d.variables ≡ dos_variables.variables)
    × Coherente d segmento
asignar-Coherente_example =
    asignar-Coherente dos_variables segmento 0 1 7 [] dos_variables-Coherente refl (omega arith)
      (omega arith) (λ e. absurd (omega arith)) (omega arith) segunda_lem

dos_variables-EsPcb : EsPcb dos_variables.current_pcb
dos_variables-EsPcb = omega arith

terminar_proceso-unserialize_pcb_example :
    (p : Paquete) × (terminar_proceso dos_variables []
      ≡ vale
          (record dos_variables { proceso_activo = false; variables = []; al_kernel = p ∷ [] })
          tt)
    × (p.codigo_operacion ≡ 1)
    × (unserialize_pcb p.datos ≡ some dos_variables.current_pcb)
terminar_proceso-unserialize_pcb_example =
    terminar_proceso-unserialize_pcb dos_variables segmento false [] dos_variables-Coherente refl
      dos_variables-EsPcb
