-- ===== src/Memory/Syscall.antt =====
-- The system calls of src/interrupts.rs. `load` is what a read of the processor in ring 0 gives, and
-- `none` a fault.
use ziran_os.Prelude.{
  ℕ, zero, suc, ◌+◌, ◌-◌, ◌%◌, ◌^◌, Bool, true, false, Option, none, some, List, [], ◌∷◌, ◌==◌, ltb,
  if◌then◌else◌, set, take, min, replicate, length,
}
use ziran_os.Memory.Paging.{allowed, denied, halted, unfinished, user_range_ok}

abbrev pub sys_print : ℕ
sys_print = 1

abbrev pub sys_exit : ℕ
sys_exit = 2

abbrev pub sys_write_number : ℕ
sys_write_number = 3

abbrev pub sys_write_unchecked : ℕ
sys_write_unchecked = 4

abbrev pub max_write : ℕ
max_write = 256

-- `u64::MAX`
abbrev pub minus_one : ℕ
minus_one = 2 ^ 64 - 1

-- The registers that a call reads or writes.
pub record InterruptContext : Type 0 where
  pub rax : ℕ
  pub rdi : ℕ
  pub rsi : ℕ

-- LAST_WRITE_BUF and LAST_WRITE_LEN.
pub record LastWrite : Type 0 where
  pub buf : List ℕ
  pub len : ℕ

unfoldable pub reset_last_write : LastWrite → LastWrite
reset_last_write w = record { buf = replicate (length w.buf) 0; len = 0 }

-- What is copied to a buffer of so many bytes.
unfoldable pub last_write_into : LastWrite → ℕ → List ℕ
last_write_into w size = take (min w.len size) w.buf

-- What a call comes to: back in ring 3 with what was printed, in the kernel after SYS_EXIT, a fault
-- in ring 0, or a panic.
pub data Served : Type 0 where
  resumed : InterruptContext → LastWrite → List ℕ → Served
  exited faulted stopped : Served

module _ (load : ℕ → Option ℕ) where
  -- The loop of `sys_write` over the `n` bytes from `i` on, with what it prints.
  unfoldable pub copy_bytes : ℕ → ℕ → ℕ → List ℕ → Option (List ℕ × List ℕ)
  copy_bytes ptr zero i buf = some (buf, [])
  copy_bytes ptr (suc n) i buf = elim (load (ptr + i)) [
    | none ↦ none
    | some byte ↦ elim (copy_bytes ptr n (i + 1) (set buf i byte)) [
      | none ↦ none
      | some (buf', out) ↦ some (buf', byte ∷ out)
    ]
  ]

  -- `sys_write` after its checks.
  unfoldable pub emit : InterruptContext → LastWrite → Served
  emit ctx w = elim (copy_bytes ctx.rdi ctx.rsi 0 w.buf) [
    | none ↦ faulted
    | some (buf, out) ↦
        resumed (record ctx { rax = ctx.rsi }) (record { buf = buf; len = ctx.rsi }) out
  ]

  module _ (entries : ℕ → ℕ → ℕ) (root : ℕ) where
    unfoldable pub sys_write : Bool → InterruptContext → LastWrite → Served
    sys_write validate ctx w =
        if ltb max_write ctx.rsi
        then resumed (record ctx { rax = minus_one }) w []
        else if validate
        then (elim (user_range_ok entries root ctx.rdi ctx.rsi) [
          | allowed ↦ emit ctx w
          | denied ↦ resumed (record ctx { rax = minus_one }) w []
          | halted ↦ stopped
          | unfinished ↦ stopped
        ])
        else emit ctx w

    unfoldable pub syscall : InterruptContext → LastWrite → Served
    syscall ctx w =
        if ctx.rax == sys_print
        then resumed (record ctx { rax = 0 }) w ((ctx.rdi % 256) ∷ [])
        else if ctx.rax == sys_exit
        then exited
        else if ctx.rax == sys_write_number
        then sys_write true ctx w
        else if ctx.rax == sys_write_unchecked
        then sys_write false ctx w
        else resumed (record ctx { rax = minus_one }) w []
