-- ===== src/Riscv/Init.antt =====
-- nemu/src/isa/riscv32/init.c: the built-in image at the reset vector, and the registers at the start.
pub mod Image
use my_oscpu.Base.{
  ℕ, ◌+◌, ◌*◌, leb, List, [], ◌∷◌, length, Result, ok, undefined, ◌>>=◌, ◌>>◌, guard,
}
use my_oscpu.Config.{Config}
use my_oscpu.Memory.Bytes.{Bytes, write_le}
use my_oscpu.Memory.Range.{guest_to_host, reset_vector}
use my_oscpu.Riscv.Machine.{Machine, update, with_cpu}

unfoldable pub img : List ℕ
img = 0x00000297 ∷ 0x00028823 ∷ 0x0102c503 ∷ 0x00100073 ∷ 0xdeadbeef ∷ []

-- `memcpy` of an array of words.
unfoldable pub copy_words : List ℕ → ℕ → Bytes → Bytes
copy_words [] o b = b
copy_words (w ∷ ws) o b = copy_words ws (o + 4) (write_le 4 b o w)

module _ {D : Type 0} (cfg : Config) where
  unfoldable pub restart : Machine D → Machine D
  restart m = with_cpu m (record m.cpu {
    pc = reset_vector cfg;
    gpr = update m.cpu.gpr 0 0;
    csr = record m.cpu.csr { mstatus_ = 0x1800 };
  })

  unfoldable pub init_isa : Machine D → Result (Machine D)
  unfolding restart copy_words img
  init_isa m = do
    o ← guest_to_host cfg (reset_vector cfg)
    guard (leb (o + 4 * length img) cfg.msize) undefined
    ok (restart (record m { memory = record m.memory { pmem = copy_words img o m.memory.pmem } }))
