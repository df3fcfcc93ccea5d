-- ===== src/Riscv/Init/Image.antt =====
-- What `init_isa` of nemu/src/isa/riscv32/init.c leaves: the image can be fetched from the reset vector on.
use my_oscpu.Base.{
  ℕ, zero, suc, ◌+◌, ◌-◌, ◌*◌, ◌%◌, ◌^◌, ◌<◌, ◌≡◌, refl, ◌∙◌, ap, inl, arith, le→leb, List, [], ◌∷◌,
  length, get_or, add32, ok,
}
use my_oscpu.Config.{Config, IsSound}
use my_oscpu.Memory.Bytes.{
  Bytes, IsBytes, read_le, write_le, write_le-IsBytes, read_le_ext, write_le_frame,
  read_le-write_le,
}
use my_oscpu.Memory.Host.{word}
use my_oscpu.Memory.Access.{Inside, paddr_read-Inside}
use my_oscpu.Memory.Range.{in_pmem, guest_to_host, reset_vector}
use my_oscpu.Memory.Paddr.{vaddr_ifetch}
use my_oscpu.Riscv.Machine.{Machine}
use my_oscpu.Riscv.Exec.{inst_fetch}
use my_oscpu.Riscv.Exec.Valid.{IsValid}
use my_oscpu.Riscv.Init.{img, copy_words, restart, init_isa}

copy_words-IsBytes : (ws : List ℕ) (o : ℕ) (b : Bytes) → IsBytes b → IsBytes (copy_words ws o b)
unfolding copy_words
copy_words-IsBytes [] o b h = h
copy_words-IsBytes (w ∷ ws) o b h =
    copy_words-IsBytes ws (o + 4) (write_le 4 b o w) (write_le-IsBytes 4 b o w h)

copy_words_frame : (ws : List ℕ) (o : ℕ) (b : Bytes) (k : ℕ) → k < o → copy_words ws o b k ≡ b k
unfolding copy_words
copy_words_frame [] o b k h = refl
copy_words_frame (w ∷ ws) o b k h =
    copy_words_frame ws (o + 4) (write_le 4 b o w) k (omega (arith, h))
    ∙ write_le_frame 4 b o w k (inl h)

read_le-copy_words :
    (ws : List ℕ) (o i : ℕ) (b : Bytes)
    → i < length ws
    → read_le 4 (copy_words ws o b) (o + 4 * i) ≡ get_or ws i 0 % 2 ^ 32
unfolding copy_words
read_le-copy_words [] o i b h = absurd (omega arith)
read_le-copy_words (w ∷ ws) o zero b h =
    let b' : Bytes = write_le 4 b o w in
    ap (read_le 4 (copy_words ws (o + 4) b')) (same o)
    ∙ read_le_ext 4 (copy_words ws (o + 4) b') b' o
        (λ k p q. copy_words_frame ws (o + 4) b' k (omega (arith, q)))
    ∙ read_le-write_le 4 b o w
  where
    same : (o : ℕ) → o + 4 * 0 ≡ o
    same o = omega arith
read_le-copy_words (w ∷ ws) o (suc i) b h =
    ap (read_le 4 (copy_words ws (o + 4) (write_le 4 b o w))) (shift o i)
    ∙ read_le-copy_words ws (o + 4) i (write_le 4 b o w) (omega arith)
  where
    shift : (o i : ℕ) → o + 4 * suc i ≡ o + 4 + 4 * i
    shift o i = omega arith

img-words : (i : ℕ) → get_or img i 0 % 2 ^ 32 ≡ get_or img i 0
unfolding img
img-words zero = refl
img-words (suc zero) = refl
img-words (suc (suc zero)) = refl
img-words (suc (suc (suc zero))) = refl
img-words (suc (suc (suc (suc zero)))) = refl
img-words (suc (suc (suc (suc (suc i))))) = refl

length-img : (i : ℕ) → i < 5 → i < length img
unfolding img
length-img i h = h

module _ (cfg : Config) (sound : IsSound cfg) where
  reset_vector-eq : reset_vector cfg ≡ cfg.mbase + cfg.reset_offset
  reset_vector-eq = omega (arith, sound.fits, sound.reset_inside)

  guest_to_host-reset_vector : guest_to_host cfg (reset_vector cfg) ≡ ok cfg.reset_offset
  unfolding guest_to_host
  guest_to_host-reset_vector = ground (arith, sound)

  image-Inside : (i : ℕ) → i < 5 → Inside cfg (cfg.mbase + cfg.reset_offset + 4 * i) 4
  unfolding in_pmem
  image-Inside i h = record {
    is_len = word;
    word = omega (arith, sound.fits, sound.reset_inside);
    starts = ground (arith, sound);
    ends = omega (arith, sound.fits, sound.reset_inside);
  }

  offset : (i : ℕ) → cfg.mbase + cfg.reset_offset + 4 * i - cfg.mbase ≡ cfg.reset_offset + 4 * i
  offset i = omega arith

module _ {D : Type 0} (cfg : Config) where
  -- The machine with the image in its memory.
  abbrev loaded : Machine D → Machine D
  loaded m = record m {
    memory = record m.memory { pmem = copy_words img cfg.reset_offset m.memory.pmem };
  }

  inst_fetch-img :
      (m : Machine D) (i : ℕ)
      → IsSound cfg
      → i < 5
      → let pc = cfg.mbase + cfg.reset_offset + 4 * i in
        inst_fetch cfg pc (restart cfg (loaded m))
        ≡ ok (get_or img i 0, add32 pc 4, restart cfg (loaded m))
  unfolding inst_fetch vaddr_ifetch restart
  inst_fetch-img m i sound h =
      let pc : ℕ = cfg.mbase + cfg.reset_offset + 4 * i in
      let word_is : read_le 4 (copy_words img cfg.reset_offset m.memory.pmem) (pc - cfg.mbase)
          ≡ get_or img i 0 =
        ap (read_le 4 (copy_words img cfg.reset_offset m.memory.pmem)) (offset cfg sound i)
        ∙ read_le-copy_words img cfg.reset_offset i m.memory.pmem (length-img i h)
        ∙ img-words i in
      rw (paddr_read-Inside cfg sound (loaded m).memory pc 4 (image-Inside cfg sound i h))
        (ap (λ w. ok (w, add32 pc 4, restart cfg (loaded m))) word_is)

  init_isa-eq : (m : Machine D) → IsSound cfg → init_isa cfg m ≡ ok (restart cfg (loaded m))
  unfolding init_isa
  init_isa-eq m sound =
      rw
        (
          guest_to_host-reset_vector cfg sound,
          le→leb (cfg.reset_offset + 20) cfg.msize sound.reset_inside,
        )
        refl

  -- In a sound configuration, `init_isa` succeeds on every valid machine. It leaves a valid machine with x0 at 0
  -- and the program counter at the reset vector, and fetching there and behind gives the words of the image.
  pub init_isa-IsValid :
      (m : Machine D)
      → IsSound cfg
      → IsValid m
      → (m' : Machine D) × (init_isa cfg m ≡ ok m')
        × IsValid m'
        × (m'.cpu.gpr 0 ≡ 0)
        × (m'.cpu.pc ≡ cfg.mbase + cfg.reset_offset)
        × ((i : ℕ)
            → i < 5
            → inst_fetch cfg (cfg.mbase + cfg.reset_offset + 4 * i) m'
              ≡ ok (get_or img i 0, add32 (cfg.mbase + cfg.reset_offset + 4 * i) 4, m'))
  unfolding restart
  init_isa-IsValid m sound v = (
    restart cfg (loaded m),
    init_isa-eq m sound,
    record {
      words = λ i. ground (arith, v.words i);
      csrs = record {
        mstatus = omega arith;
        mtvec = v.csrs.mtvec;
        mepc = v.csrs.mepc;
        mcause = v.csrs.mcause;
      };
      memory = record {
        pmem = copy_words-IsBytes img cfg.reset_offset m.memory.pmem v.memory.pmem;
        space = v.memory.space;
        callbacks = v.memory.callbacks;
      };
      pc = omega arith;
    },
    refl,
    reset_vector-eq cfg sound,
    (λ i h. inst_fetch-img m i sound h),
  )
