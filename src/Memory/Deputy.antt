-- ===== src/Memory/Deputy.antt =====
-- What `SYS_WRITE` of src/interrupts.rs reads on behalf of its caller.
use mathlib.Core.List.{append_assoc, append-nil}
use ziran_os.Prelude.{
  ℕ, zero, suc, ◌+◌, ◌≤◌, ◌<◌, ◌≡◌, ◌≢◌, ◌⊎◌, inl, inr, refl, ap, sym, subst, ◌∙◌, true, false,
  Option, none, some, List, [], ◌∷◌, ◌++◌, ◌==◌, ltb, set, take, length, length-set, take-set,
  Bool-cases, Option-cases, arith,
}
use ziran_os.Memory.Paging.{RangeCheck, allowed, denied, halted, unfinished, user_range_ok}
use ziran_os.Memory.UserWalk.{Wild}
use ziran_os.Memory.UserRange.{Readable, Bytes, user_range_ok-Bytes}
use ziran_os.Memory.Syscall.{
  max_write, minus_one, InterruptContext, LastWrite, Served, resumed, stopped, copy_bytes, emit,
  sys_write, syscall, sys_print, sys_exit, sys_write_number,
}

module _ (load : ℕ → Option ℕ) (ptr : ℕ) where
  -- That some bytes are what the processor reads from an address on.
  abbrev pub ReadFrom : ℕ → List ℕ → Type 0
  ReadFrom addr [] = Unit {0}
  ReadFrom addr (b ∷ bs) = (load addr ≡ some b) × ReadFrom (addr + 1) bs

  record Copied (n i : ℕ) (buf buf' out : List ℕ) : Type 0 where
    done : copy_bytes load ptr n i buf ≡ some (buf', out)
    size : length buf' ≡ length buf
    many : length out ≡ n
    kept : take (i + n) buf' ≡ take i buf ++ out
    read : ReadFrom (ptr + i) out

  copy_bytes-Copied :
      (n i : ℕ) (buf : List ℕ)
      → ((k : ℕ) → k < n → load (ptr + (i + k)) ≢ none)
      → i + n ≤ length buf
      → (buf' : List ℕ) × (out : List ℕ) × Copied n i buf buf' out
  unfolding copy_bytes
  copy_bytes-Copied zero i buf f h = (
    buf,
    [],
    record {
      done = refl;
      size = refl;
      many = refl;
      kept =
          (let e : i + 0 ≡ i = omega arith in
            ap (λ k. take k buf) e ∙ sym (append-nil (take i buf)));
      read = tt;
    },
  )
  copy_bytes-Copied (suc n) i buf f h = elim (Option-cases (load (ptr + i))) [
    | inl e ↦
        let same : ptr + (i + 0) ≡ ptr + i = omega arith in
        absurd (f 0 (omega arith) (ap load same ∙ e))
    | inr (b, e) ↦
        let (buf', out, c) =
          copy_bytes-Copied n (i + 1) (set buf i b)
            (λ k z q.
              let same : ptr + (i + suc k) ≡ ptr + (i + 1 + k) = omega arith in
              f (suc k) (omega arith) (ap load same ∙ q))
            (omega (arith, length-set buf i b)) in
        let next : ptr + (i + 1) ≡ ptr + i + 1 = omega arith in
        let far : i + suc n ≡ i + 1 + n = omega arith in
        let one : i + 1 ≡ suc i = omega arith in
        (
          buf',
          b ∷ out,
          record {
            done = rw (e, copy_bytes, c.done) refl;
            size = c.size ∙ length-set buf i b;
            many = ap suc c.many;
            kept =
                ap (λ k. take k buf') far
                ∙ c.kept
                ∙ ap (λ k. take k (set buf i b) ++ out) one
                ∙ ap (λ l. l ++ out) (take-set buf i b (omega arith))
                ∙ append_assoc (take i buf) (b ∷ []) out;
            read = (e, subst (λ a. ReadFrom a out) next c.read);
          },
        )
  ]

  -- A call that wrote: what it printed is what is at the pointer, byte for byte, and is recorded.
  pub record Wrote (ctx : InterruptContext) (w : LastWrite) (ctx' : InterruptContext)
      (w' : LastWrite) (out : List ℕ) : Type 0 where
    pub result : ctx' ≡ record ctx { rax = ctx.rsi }
    pub many : length out ≡ ctx.rsi
    pub bytes : ReadFrom ptr out
    pub recorded : take w'.len w'.buf ≡ out

module _ (load : ℕ → Option ℕ) (entries : ℕ → ℕ → ℕ) (root : ℕ) where
  -- What SYS_WRITE may come to.
  abbrev pub Guarded : InterruptContext → LastWrite → Served → Type 0
  Guarded ctx w (resumed ctx' w' out) =
      ((ctx' ≡ record ctx { rax = minus_one })
        × (w' ≡ w)
        × (out ≡ [])
        × ((max_write < ctx.rsi)
            ⊎ ((i : ℕ) × (i < ctx.rsi) × (Readable entries root (ctx.rdi + i) → ⊥))))
      ⊎ ((ctx.rsi ≤ max_write)
          × ((i : ℕ) → i < ctx.rsi → Readable entries root (ctx.rdi + i))
          × Wrote load ctx.rdi ctx w ctx' w' out)
  Guarded ctx w stopped = (i : ℕ) × (i < ctx.rsi) × Wild entries 3 root (ctx.rdi + i)
  Guarded ctx w _ = ⊥

  module _ (reads : (addr : ℕ) → Readable entries root addr → load addr ≢ none) where
    emit-Wrote :
        (ctx : InterruptContext) (w : LastWrite)
        → length w.buf ≡ max_write
        → ctx.rsi ≤ max_write
        → ((i : ℕ) → i < ctx.rsi → Readable entries root (ctx.rdi + i))
        → Guarded ctx w (emit load ctx w)
    unfolding emit
    emit-Wrote ctx w size short all =
        let (buf', out, c) =
          copy_bytes-Copied load ctx.rdi ctx.rsi 0 w.buf
            (λ k h q.
              let same : ctx.rdi + k ≡ ctx.rdi + (0 + k) = omega arith in
              reads (ctx.rdi + k) (all k h) (ap load same ∙ q))
            (omega (arith, size)) in
        let start : ctx.rdi + 0 ≡ ctx.rdi = omega arith in
        let number : ctx.rsi ≡ 0 + ctx.rsi = omega arith in
        rw (c.done, emit)
          (inr (
            short,
            all,
            record {
              result = refl;
              many = c.many;
              bytes = subst (λ a. ReadFrom load ctx.rdi a out) start c.read;
              recorded = ap (λ k. take k buf') number ∙ c.kept;
            },
          ))

    by_verdict :
        (ctx : InterruptContext) (w : LastWrite)
        → length w.buf ≡ max_write
        → ctx.rsi ≤ max_write
        → (verdict : RangeCheck) → Bytes entries root ctx.rdi ctx.rsi verdict
        → Guarded ctx w (elim verdict [
          | allowed ↦ emit load ctx w
          | denied ↦ resumed (record ctx { rax = minus_one }) w []
          | halted ↦ stopped
          | unfinished ↦ stopped
        ])
    by_verdict ctx w size short allowed all = emit-Wrote ctx w size short all
    by_verdict ctx w size short denied found = inl (refl, refl, refl, inr found)
    by_verdict ctx w size short halted found = found
    by_verdict ctx w size short unfinished no_fuel = absurd no_fuel

    sys_write-Guarded :
        (ctx : InterruptContext) (w : LastWrite)
        → length w.buf ≡ max_write
        → Guarded ctx w (sys_write load entries root true ctx w)
    unfolding sys_write
    sys_write-Guarded ctx w size = elim (Bool-cases (ltb max_write ctx.rsi)) [
      | inl long ↦ rw (long, sys_write) (inl (refl, refl, refl, inl (ground (arith, long))))
      | inr short ↦
          rw (short, sys_write)
            (by_verdict ctx w size (ground (arith, short))
              (user_range_ok entries root ctx.rdi ctx.rsi)
              (user_range_ok-Bytes entries root ctx.rdi ctx.rsi))
    ]

    -- Where the processor in ring 0 can read what ring 3 may read, SYS_WRITE never faults. Either it
    -- answers -1, prints and records nothing, and the length is over 256 or some byte of the range
    -- is not readable in ring 3, or every byte of the range is readable in ring 3, and it prints
    -- just those bytes, as many as asked, records them and answers their number. It panics only if
    -- a walk for the range comes to a table outside the identity map.
    pub syscall-Guarded :
        (ctx : InterruptContext) (w : LastWrite)
        → length w.buf ≡ max_write
        → ctx.rax ≡ sys_write_number
        → Guarded ctx w (syscall load entries root ctx w)
    unfolding syscall
    syscall-Guarded ctx w size number =
        let not_print : (ctx.rax == sys_print) ≡ false = ground (arith, number) in
        let not_exit : (ctx.rax == sys_exit) ≡ false = ground (arith, number) in
        let write : (ctx.rax == sys_write_number) ≡ true = ground (arith, number) in
        rw (not_print, not_exit, write, syscall) (sys_write-Guarded ctx w size)
