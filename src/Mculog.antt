-- ===== src/Mculog.antt =====
-- The log that the microcontroller writes and the kernel reads, over shared memory:
-- `_write` of src/hal/project/rk3506-mcu/src/main.c and src/kernel-6.1/drivers/misc/mculog.c.
-- Both sides have 32-bit words.
pub mod Ring
pub mod Handshake
pub mod Fifo
mod Examples
use Prim.Native.Nat.{min}
use picocalc_ubuntu_kernel.Prelude.{
  ℕ, zero, suc, ◌+◌, ◌-◌, ◌%◌, ◌^◌, Bool, true, false, not, ◌&&◌, ◌||◌, ltb, leb, if◌then◌else◌,
  List, [], ◌∷◌, ◌++◌, Option, none, some,
}
use picocalc_ubuntu_kernel.Prelude.Int.{ℤ, pos, negsuc, pattern32}
use picocalc_ubuntu_kernel.Platform.{Ret, value, failure, einval}

-- struct mculog_buffer; `buf` is the flexible array, by its index.
pub record MculogBuffer : Type 0 where
  pub init_flag : ℕ
  pub max_size : ℕ
  pub head : ℕ
  pub tail : ℕ
  pub buf : ℕ → ℕ

abbrev pub add32 : ℕ → ℕ → ℕ
add32 a b = (a + b) % 2 ^ 32

abbrev pub sub32 : ℕ → ℕ → ℕ
sub32 a b = (a + (2 ^ 32 - b % 2 ^ 32)) % 2 ^ 32

-- memcpy(buf + at, src, n)
unfoldable pub memcpy : (ℕ → ℕ) → ℕ → (ℕ → ℕ) → ℕ → ℕ → ℕ
memcpy buf at src n i = if leb at i && ltb i (at + n) then src (i - at) else buf i

-- The space that is free for the writer.
unfoldable pub free_space : MculogBuffer → ℕ
free_space lb =
    if ltb lb.head lb.tail
    then sub32 (sub32 lb.tail lb.head) 1
    else sub32 (add32 (sub32 lb.max_size lb.head) lb.tail) 1

-- `len < free ? len : free`, where the int is converted to size_t.
unfoldable pub write_length : MculogBuffer → ℤ → ℕ
write_length lb len = if ltb (pattern32 len) (free_space lb) then pattern32 len else free_space lb

-- The one or two copies of `n` bytes into the ring.
unfoldable pub filled : MculogBuffer → (ℕ → ℕ) → ℕ → ℕ → ℕ
filled lb ptr n =
    let to_end = sub32 lb.max_size lb.head in
    if ltb to_end n
    then memcpy (memcpy lb.buf lb.head ptr to_end) 0 (λ i. ptr (to_end + i)) (n - to_end)
    else memcpy lb.buf lb.head ptr n

-- The microcontroller's `_write`: none is the result -1.
unfoldable pub mcu_write : ℕ → (ℕ → ℕ) → ℤ → MculogBuffer → Option ℕ × MculogBuffer
mcu_write fd ptr len lb =
    let n = write_length lb len in
    if ltb 2 fd
    then (none, lb)
    else (some n, record lb { buf = filled lb ptr n; head = add32 lb.head n % lb.max_size })

-- The bytes that are there for the reader.
unfoldable pub available : MculogBuffer → ℕ
available lb =
    if leb lb.tail lb.head then sub32 lb.head lb.tail else add32 (sub32 lb.max_size lb.tail) lb.head

-- The bytes that one copy_to_user hands over.
unfoldable pub segment : (ℕ → ℕ) → ℕ → ℕ → List ℕ
segment buf from zero = []
segment buf from (suc n) = buf from ∷ segment buf (suc from) n

abbrev pub efault : ℕ
efault = 14

-- mculog_read with the answers of its one or two copy_to_user calls (true: all was copied). The bytes
-- are those that reached the reader's buffer.
unfoldable pub mculog_read : ℕ → Bool → Bool → MculogBuffer → Ret ℕ × List ℕ × MculogBuffer
mculog_read count first second lb =
    let avail = available lb in
    let len = min count avail in
    let to_end = sub32 lb.max_size lb.tail in
    let done : MculogBuffer = record lb { tail = add32 lb.tail len % lb.max_size } in
    let front = segment lb.buf lb.tail to_end in
    let back = segment lb.buf 0 (len - to_end) in
    if not (ltb 0 avail)
    then (value 0, [], lb)
    else if ltb to_end len
    then if not first
      then (failure efault, [], lb)
      else if not second
      then (failure efault, front, lb)
      else (value len, front ++ back, done)
    else if not first
    then (failure efault, [], lb)
    else (value len, segment lb.buf lb.tail len, done)

-- `shmem_length > rmem->size - shmem_offset` refuses, in mculog_probe and softpwm_sound_probe.
unfoldable pub region_refused : ℕ → ℕ → ℕ → Bool
region_refused size offset len = ltb (sub32 size offset) len

-- The header that mculog_probe writes: sizeof(struct mculog_buffer) is 16.
unfoldable pub mculog_init : ℕ → MculogBuffer → MculogBuffer
mculog_init shmem_length lb = record lb {
  init_flag = 0x4d43554c;
  max_size = sub32 shmem_length 16;
  head = 0;
  tail = 0;
}
