-- ===== src/Riscv/Exec/Bodies.antt =====
-- The shapes of the bodies in nemu/src/isa/riscv32/inst.c keep the machine valid.
use my_oscpu.Base.{ℕ, arith, Bool, true, false, Option, Result, add32}
use my_oscpu.Config.{Config}
use my_oscpu.Memory.Paddr.{vaddr_write}
use my_oscpu.Memory.Valid.{Ensures, Ensures-bind, Ensures-of_eq, paddr_write-valid}
use my_oscpu.Riscv.Alu.Bounds.{IsWord}
use my_oscpu.Riscv.Machine.{Machine, CsrIndex, set_reg, csr_get, csr_set, csr_addr2idx}
use my_oscpu.Riscv.Operand.{Operands}
use my_oscpu.Riscv.Exec.{
  Decode, write_rd_of, branch, load_rd, store_src2, store_word, jump, access_csr, load_word,
  func_trace_check, write_rd,
}
use my_oscpu.Riscv.Exec.Valid.{
  IsValid, IsNext, csr_set-IsCsrs, csr_get-IsWord, set_reg-IsValid, with_csr-IsValid,
  with_memory-IsValid, load_word-IsNext, func_trace_check-IsValid,
}

module _ {D : Type 0} (cfg : Config) where
  module _ (s : Decode) (o : Operands) (m : Machine D) (v : IsValid m) (snpc : IsWord s.snpc) where
    pub write_rd-IsNext : (x : ℕ) → IsWord x → Ensures IsNext (write_rd cfg s o m x)
    unfolding write_rd
    write_rd-IsNext x h =
        Ensures-bind _ _ (set_reg cfg o.rd x m) _ (set_reg-IsValid cfg o.rd x m h v)
          λ m' v'. (snpc, v')

    pub write_rd_of-IsNext :
        (r : Result ℕ) → Ensures IsWord r → Ensures IsNext (write_rd_of cfg s o m r)
    unfolding write_rd_of
    write_rd_of-IsNext r h = Ensures-bind IsWord _ r _ h λ x p. write_rd-IsNext x p

    pub branch-IsNext : (t : Bool) → Ensures IsNext (branch cfg s o m t)
    unfolding branch
    branch-IsNext true = (omega arith, v)
    branch-IsNext false = (snpc, v)

    pub load_rd-IsNext :
        (len : ℕ) (extend : ℕ → ℕ)
        → ((x : ℕ) → IsWord x → IsWord (extend x))
        → Ensures IsNext (load_rd cfg s o m len extend)
    unfolding load_rd
    load_rd-IsNext len extend keeps =
        Ensures-bind IsNext _ (load_word cfg (add32 o.src1 o.imm) len m) _
          (load_word-IsNext cfg (add32 o.src1 o.imm) len m v)
          λ r p.
            Ensures-bind _ _ (set_reg cfg o.rd (extend r.0) r.1) _
              (set_reg-IsValid cfg o.rd (extend r.0) r.1 (keeps r.0 p.0) p.1) λ m' v'. (snpc, v')

    pub store_src2-IsNext : (len : ℕ) → Ensures IsNext (store_src2 cfg s o m len)
    unfolding store_src2 vaddr_write
    store_src2-IsNext len =
        Ensures-bind (λ (m' : Machine D). IsValid m') _
          (store_word cfg (add32 o.src1 o.imm) len o.src2 m) _
          (unfold store_word in
            Ensures-bind _ _ (vaddr_write cfg (add32 o.src1 o.imm) len o.src2 m.memory) _
              (paddr_write-valid cfg (add32 o.src1 o.imm) len o.src2 m.memory v.memory)
              λ mem h. with_memory-IsValid cfg m mem h v)
          λ m' v'. (snpc, v')

    pub jump-IsNext :
        (target : ℕ) (src1 : Option ℕ) → IsWord target → Ensures IsNext (jump cfg s o m target src1)
    unfolding jump
    jump-IsNext target src1 h =
        Ensures-bind _ _ (set_reg cfg o.rd s.snpc m) _ (set_reg-IsValid cfg o.rd s.snpc m snpc v)
          λ m' v'.
            Ensures-bind _ _ (func_trace_check cfg o.rd s.pc target src1 m') _
              (func_trace_check-IsValid cfg o.rd s.pc target src1 m' v') λ m'' v''. (h, v'')

    pub access_csr-IsNext :
        (new : ℕ → ℕ)
        → ((x : ℕ) → IsWord x → IsWord (new x))
        → Ensures IsNext (access_csr cfg s o m new)
    unfolding access_csr
    access_csr-IsNext new keeps =
        Ensures-bind (λ (i : CsrIndex). Unit {0}) _ (csr_addr2idx o.imm) _
          (Ensures-of_eq _ (csr_addr2idx o.imm) (λ i e. tt))
          λ i _.
            let old = csr_get i m.cpu.csr in
            let lt = csr_get-IsWord i m.cpu.csr v.csrs in
            Ensures-bind _ _ (set_reg cfg o.rd old m) _ (set_reg-IsValid cfg o.rd old m lt v)
              λ m' v'. (
                snpc,
                with_csr-IsValid cfg m' (csr_set i (new old) m'.cpu.csr)
                    (csr_set-IsCsrs i (new old) m'.cpu.csr (keeps old lt) v'.csrs) v',
              )
