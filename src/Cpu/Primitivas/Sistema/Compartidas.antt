-- ===== src/Cpu/Primitivas/Sistema/Compartidas.antt =====
-- The shared variables: `asignarValorCompartida` and `obtenerValorCompartida` of proyectoCPU/primitivas.c
-- with `sharedVariableAssign` and `sharedVariableRequest` of proyectoKernel/accionesParaCPU.c.
use personal_copy_tp.Common.{
  ℕ, ◌-◌, ◌^◌, ◌<◌, ◌≡◌, ◌≢◌, refl, ap, ap₂, sym, ◌∙◌, List, [], ◌∷◌, ◌++◌, Option, some, arith,
  length, length-append, All, encode_int, decode_int, true, false, Bool-cases, inl, inr,
  if◌then◌else◌,
}
use personal_copy_tp.Commons.Strings.{StringOps}
use personal_copy_tp.Sockets.{Paquete}
use personal_copy_tp.Sockets.Paquetes.{paquete, length-encode_int}
use personal_copy_tp.Kernel.{mismo_nombre}
use personal_copy_tp.Kernel.Mensajes.{
  c_string, buscar_compartida, poner_compartida, shared_variable_request, shared_variable_assign,
  pcp_cpu_ok,
}
use personal_copy_tp.Cpu.Primitivas.Textos.{remove_new_line}
use personal_copy_tp.Cpu.Primitivas.Variables.{value-back}
use personal_copy_tp.Cpu.Primitivas.{Cpu, normal, vale, ◌>>=◌, si_normal, valor_de}
use personal_copy_tp.Cpu.Primitivas.Sistema.{
  enviar_al_kernel, siguiente_del_kernel, con_cero, paquete_asignar_compartida, con_nombre,
  pedido_compartida, obtener_valor_compartida, asignar_valor_compartida,
  cpu_pcp_pedir_variable_compartida,
}
use personal_copy_tp.Cpu.Primitivas.Sistema.Envios.{copiar-append, drop-append}

-- A name is a C string.
abbrev pub SinCeros : List ℕ → Type 0
SinCeros = All (λ b. b ≢ 0)

c_string-con_cero : (nombre : List ℕ) → SinCeros nombre → c_string (con_cero nombre) ≡ some nombre
unfolding c_string
c_string-con_cero [] h = refl
c_string-con_cero (b ∷ nombre) h = ground (arith, c_string-con_cero nombre h.1)

mismo_nombre-eq : (a b : List ℕ) → mismo_nombre a b ≡ true → a ≡ b
unfolding mismo_nombre
mismo_nombre-eq [] [] h = refl
mismo_nombre-eq [] (y ∷ b) h = cc
mismo_nombre-eq (x ∷ a) [] h = cc
mismo_nombre-eq (x ∷ a) (y ∷ b) h =
    let head : x ≡ y = ground arith in
    let tail : mismo_nombre a b ≡ true = ground arith in ap₂ ◌∷◌ head (mismo_nombre-eq a b tail)

buscar-poner :
    (nombre : List ℕ) (valor : ℕ) (variables : List (List ℕ × ℕ)) {viejo : ℕ}
    → buscar_compartida nombre variables ≡ some viejo
    → buscar_compartida nombre (poner_compartida nombre valor variables) ≡ some valor
unfolding buscar_compartida poner_compartida
buscar-poner nombre valor [] h = cc
buscar-poner nombre valor ((n, v) ∷ resto) h = elim (Bool-cases (mismo_nombre n nombre)) [
  | inl hit ↦ rw (hit, hit)
  | inr miss ↦
      let later : buscar_compartida nombre resto ≡ some _ = rw miss at h in
      rw (miss, miss) (buscar-poner nombre valor resto later)
]

distinto :
    (n nombre otro : List ℕ)
    → mismo_nombre n nombre ≡ true
    → otro ≢ nombre
    → mismo_nombre n otro ≡ false
distinto n nombre otro hit h = elim (Bool-cases (mismo_nombre n otro)) [
  | inl both ↦ absurd (h (sym (mismo_nombre-eq n otro both) ∙ mismo_nombre-eq n nombre hit))
  | inr miss ↦ miss
]

buscar-poner_otro :
    (otro nombre : List ℕ) (valor : ℕ) (variables : List (List ℕ × ℕ))
    → otro ≢ nombre
    → buscar_compartida otro (poner_compartida nombre valor variables)
      ≡ buscar_compartida otro variables
unfolding buscar_compartida poner_compartida
buscar-poner_otro otro nombre valor [] h = refl
buscar-poner_otro otro nombre valor ((n, v) ∷ resto) h = elim (Bool-cases (mismo_nombre n nombre)) [
  | inl hit ↦
      let other : mismo_nombre n otro ≡ false = distinto n nombre otro hit h in rw (hit, other)
  | inr miss ↦ rw miss (
      ap (λ (x : Option ℕ). if mismo_nombre n otro then some v else x)
        (buscar-poner_otro otro nombre valor resto h))
]

module _ (nombre : List ℕ) (valor : ℕ) (variables : List (List ℕ × ℕ)) (h : SinCeros nombre) where
  shared_variable_assign-hecho :
      {viejo : ℕ}
      → valor < 2 ^ 32
      → buscar_compartida nombre variables ≡ some viejo
      → shared_variable_assign variables (paquete_asignar_compartida nombre valor)
        ≡ some (poner_compartida nombre valor variables)
  unfolding shared_variable_assign paquete_asignar_compartida
  shared_variable_assign-hecho small old =
      let size : length (con_cero nombre ++ encode_int valor) - 4 ≡ length (con_cero nombre) =
        omega
          (arith, length-append (con_cero nombre) (encode_int valor), length-encode_int valor) in
      rw (
        size,
        copiar-append (con_cero nombre) (encode_int valor),
        drop-append (con_cero nombre) (encode_int valor),
        value-back valor small,
        c_string-con_cero nombre h,
        old,
      )

  shared_variable_request-hecho :
      buscar_compartida nombre variables ≡ some valor
      → shared_variable_request variables
          (paquete cpu_pcp_pedir_variable_compartida (con_cero nombre))
        ≡ some (paquete pcp_cpu_ok (encode_int valor))
  unfolding shared_variable_request
  shared_variable_request-hecho found = rw (c_string-con_cero nombre h, found)

-- A process that assigns to a shared variable which the kernel knows sends a packet with which the kernel
-- gives the variable that value and leaves every other one as it was; a process that then asks for the
-- variable sends a packet to which the kernel answers with the value, and gets the value.
pub asignar-obtener_valor_compartida :
    (so : StringOps) (c d : Cpu) (variable nombre otro : List ℕ) (valor : ℕ)
    (variables : List (List ℕ × ℕ)) (resto : List Paquete) {viejo : ℕ}
    → c.estado ≡ normal
    → d.estado ≡ normal
    → remove_new_line so variable ≡ some nombre
    → SinCeros nombre
    → otro ≢ nombre
    → valor < 2 ^ 32
    → buscar_compartida nombre variables ≡ some viejo
    → d.del_kernel ≡ paquete pcp_cpu_ok (encode_int valor) ∷ resto
    → (p q : Paquete) × (despues : List (List ℕ × ℕ)) × (asignar_valor_compartida so c variable
          valor
        ≡ vale (enviar_al_kernel c p) valor)
      × (shared_variable_assign variables p ≡ some despues)
      × (buscar_compartida otro despues ≡ buscar_compartida otro variables)
      × (shared_variable_request despues q ≡ some (paquete pcp_cpu_ok (encode_int valor)))
      × (obtener_valor_compartida so d variable
          ≡ vale (record (enviar_al_kernel d q) { del_kernel = resto }) valor)
unfolding asignar_valor_compartida obtener_valor_compartida
asignar-obtener_valor_compartida so c d variable nombre otro valor variables resto ec ed name h
      other small old answer =
    let q = paquete cpu_pcp_pedir_variable_compartida (con_cero nombre) in
    let despues = poner_compartida nombre valor variables in
    let manda = λ (o : Option (List ℕ)).
      con_nombre o (λ n. vale (enviar_al_kernel c (paquete_asignar_compartida n valor)) valor) in
    (
      paquete_asignar_compartida nombre valor,
      q,
      despues,
      ap (λ x. si_normal x c 0 (manda (remove_new_line so variable))) ec ∙ ap manda name,
      shared_variable_assign-hecho nombre valor variables h small old,
      buscar-poner_otro otro nombre valor variables other,
      shared_variable_request-hecho nombre valor despues h
          (buscar-poner nombre valor variables old),
      ap (λ x. si_normal x d 0 (con_nombre (remove_new_line so variable) (pedido_compartida so d)))
            ed
          ∙ ap (λ o. con_nombre o (pedido_compartida so d)) name
          ∙ ap
              (λ ps. siguiente_del_kernel (enviar_al_kernel d q) ps >>= λ f r.
                valor_de f (decode_int r.datos))
              answer
          ∙ ap (valor_de (record (enviar_al_kernel d q) { del_kernel = resto }))
              (value-back valor small),
    )
