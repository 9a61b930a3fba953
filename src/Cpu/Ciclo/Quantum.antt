-- ===== src/Cpu/Ciclo/Quantum.antt =====
-- The loop of proyectoCPU/CPU.c as a relation: a process runs instruction by instruction, at most one
-- quantum of them.
use personal_copy_tp.Common.{
  ℕ, zero, suc, ◌≤◌, ◌≡◌, ◌≢◌, ◌⊎◌, inl, inr, refl, sym, ap, ◌∙◌, subst, List, arith,
}
use personal_copy_tp.Cpu.Primitivas.{
  Cpu, Estado, normal, seg_fault, stk_overflow, kill_cpu, end_process, entrada_salida, wait, Efecto,
  vale, sale, falla, ◌>>=◌, si_normal,
}
use personal_copy_tp.Cpu.Ciclo.{ejecutar_instruccion, ejecutar_quantum}

module _ (analizador : List ℕ → Cpu → Efecto (Unit {0})) where
  -- From one state to another by a number of instructions, each begun in the normal state.
  pub data Corre : ℕ → Cpu → Cpu → Type 0 where
    quieto : {c : Cpu} → Corre zero c c
    una :
        {n : ℕ} {c d e : Cpu}
        → c.estado ≡ normal
        → ejecutar_instruccion analizador c ≡ vale d tt
        → Corre n d e
        → Corre (suc n) c e

si_normal-cases :
    {A : Type 0} (x : Estado) (c : Cpu) (otro : A) (e : Efecto A)
    → ((x ≡ normal) × (si_normal x c otro e ≡ e))
      ⊎ ((x ≢ normal) × (si_normal x c otro e ≡ vale c otro))
si_normal-cases normal c otro e = inl (refl, refl)
si_normal-cases seg_fault c otro e = inr ((λ h. cc), refl)
si_normal-cases stk_overflow c otro e = inr ((λ h. cc), refl)
si_normal-cases kill_cpu c otro e = inr ((λ h. cc), refl)
si_normal-cases end_process c otro e = inr ((λ h. cc), refl)
si_normal-cases entrada_salida c otro e = inr ((λ h. cc), refl)
si_normal-cases wait c otro e = inr ((λ h. cc), refl)

>>=-eq-vale :
    {A B : Type 0} (m : Efecto A) (f : Cpu → A → Efecto B) {c : Cpu} {b : B}
    → (m >>= f) ≡ vale c b
    → (d : Cpu) × (a : A) × (m ≡ vale d a) × (f d a ≡ vale c b)
>>=-eq-vale (vale d a) f h = (d, a, refl, h)
>>=-eq-vale (sale d enviados) f h = cc
>>=-eq-vale falla f h = cc

mas_una :
    (e : Cpu) (n quantum : ℕ)
    → (n ≡ quantum) ⊎ (e.estado ≢ normal)
    → (suc n ≡ suc quantum) ⊎ (e.estado ≢ normal)
mas_una e n quantum (inl same) = inl (ap suc same)
mas_una e n quantum (inr stop) = inr stop

module _ (analizador : List ℕ → Cpu → Efecto (Unit {0})) where
  -- Whatever the parser does, a process that the loop gives up has run, instruction by instruction, at
  -- most one quantum of instructions, and fewer only if it is no more in the normal state.
  pub ejecutar_quantum-Corre :
      (quantum : ℕ) (c : Cpu) {e : Cpu}
      → ejecutar_quantum analizador quantum c ≡ vale e tt
      → (n : ℕ) × (n ≤ quantum) × Corre analizador n c e × ((n ≡ quantum) ⊎ (e.estado ≢ normal))
  unfolding ejecutar_quantum
  ejecutar_quantum-Corre zero c {e} h =
      let same : c ≡ e = cc in
      (0, omega arith, subst (λ x. Corre analizador zero c x) same quieto, inl refl)
  ejecutar_quantum-Corre (suc quantum) c {e} h =
      elim (si_normal-cases c.estado c tt
        (ejecutar_instruccion analizador c >>= λ d _. ejecutar_quantum analizador quantum d)) [
          | inl (ok, eq) ↦
              let (d, _, step, rest) =
                >>=-eq-vale (ejecutar_instruccion analizador c)
                  (λ d _. ejecutar_quantum analizador quantum d) (sym eq ∙ h) in
              let (n, le, run, stop) = ejecutar_quantum-Corre quantum d rest in
              (suc n, omega arith, una ok step run, mas_una e n quantum stop)
          | inr (stop, eq) ↦
              let same : c ≡ e = cc in
              (
                0,
                omega arith,
                subst (λ x. Corre analizador zero c x) same quieto,
                inr (subst (λ (x : Cpu). x.estado ≢ normal) same stop),
              )
        ]

  -- A run of a quantum of instructions, or of fewer that end in another state than the normal one, is
  -- what the loop does.
  pub Corre-ejecutar_quantum :
      (quantum : ℕ) {n : ℕ} {c e : Cpu}
      → Corre analizador n c e
      → n ≤ quantum
      → (n ≡ quantum) ⊎ (e.estado ≢ normal)
      → ejecutar_quantum analizador quantum c ≡ vale e tt
  unfolding ejecutar_quantum
  Corre-ejecutar_quantum zero quieto le end = refl
  Corre-ejecutar_quantum zero (una ok step run) le end = absurd (omega arith)
  Corre-ejecutar_quantum (suc quantum) {n} {c} quieto le end =
      elim (si_normal-cases c.estado c tt
        (ejecutar_instruccion analizador c >>= λ d _. ejecutar_quantum analizador quantum d)) [
          | inl (ok, _) ↦ absurd (elim end [ inl bad ↦ absurd (omega arith) | inr stop ↦ stop ok ])
          | inr (_, eq) ↦ eq
        ]
  Corre-ejecutar_quantum (suc quantum) {n} {c} {e} (una {n = m} ok step run) le end =
      let end' : (m ≡ quantum) ⊎ (e.estado ≢ normal) = elim end [
        | inl same ↦ inl (omega (arith, same))
        | inr stop ↦ inr stop
      ] in
      ap
        (λ x.
          si_normal x c tt
            (ejecutar_instruccion analizador c >>= λ d _. ejecutar_quantum analizador quantum d))
        ok
      ∙ ap (λ (x : Efecto (Unit {0})). x >>= λ d _. ejecutar_quantum analizador quantum d) step
      ∙ Corre-ejecutar_quantum quantum run (omega arith) end'
