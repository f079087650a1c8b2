-- ===== src/Transfer/Write.antt =====
-- WRITE against what it is for: the driver is given the bytes one by one, up to the first one that
-- it does not accept.
use muxx.Prelude.{
  ℕ, zero, suc, ◌+◌, ◌%◌, ◌^◌, ◌≡◌, ◌<◌, refl, Bool, true, false, not, some, List, ◌∷◌, ◌==◌,
  if◌then◌else◌, update, arith, inl, inr, Bool-cases,
}
use muxx.Prelude.Int.{ℤ, pos, negsuc, is_neg}
use muxx.Config.{drv_write}
use muxx.Errors.{eok}
use muxx.Types.{DrvDesc, Iopkt}
use muxx.Kernel.{Kernel, ok}
use muxx.Sched.{Frame}
use muxx.Driver.Exec.{Callback, drv_exec}
use muxx.Transfer.{byte_iopkt, write_from, write_open, svc_write}

-- The number of bytes up to the first one that is not good.
abbrev pub good_prefix : (ℕ → Bool) → (left i : ℕ) → (ℕ → ℕ) → ℕ
good_prefix good zero i buffer = 0
good_prefix good (suc left) i buffer =
    let rest = good_prefix good left (suc i) buffer in if good (buffer i) then suc rest else 0

-- The calls of the driver with these bytes, the first bad one the last.
abbrev pub sent :
    (ℕ → Bool)
    → (address : ℕ) → Iopkt
    → (left i : ℕ) → (ℕ → ℕ)
    → List (ℕ × Iopkt)
    → List (ℕ × Iopkt)
sent good address p zero i buffer calls = calls
sent good address p (suc left) i buffer calls =
    let calls' = (address, record p { ioarea = buffer i }) ∷ calls in
    let rest = sent good address p left (suc i) buffer calls' in
    if good (buffer i) then rest else calls'

abbrev pub last_rc : (ℕ → Bool) → (error : ℕ) → (left i : ℕ) → (ℕ → ℕ) → ℕ → ℤ
last_rc good error zero i buffer r = pos r
last_rc good error (suc left) i buffer r =
    let rest = last_rc good error left (suc i) buffer 1 in
    if good (buffer i) then rest else negsuc error

last_rc-neg :
    (good : ℕ → Bool) (error left i : ℕ) (buffer : ℕ → ℕ) (r : ℕ)
    → is_neg (last_rc good error left i buffer r) ≡ not (good_prefix good left i buffer == left)
last_rc-neg good error zero i buffer r = refl
last_rc-neg good error (suc left) i buffer r =
    ground (arith, last_rc-neg good error left (suc i) buffer 1)

last_rc-errno :
    (good : ℕ → Bool) (error left i : ℕ) (buffer : ℕ → ℕ) (r : ℕ)
    → (if is_neg (last_rc good error left i buffer r)
        then last_rc good error left i buffer r
        else eok)
      ≡ (if good_prefix good left i buffer == left then eok else negsuc error)
last_rc-errno good error zero i buffer r = refl
last_rc-errno good error (suc left) i buffer r =
    ground (arith, last_rc-errno good error left (suc i) buffer 1)

-- The driver takes a byte if it is good, and returns an error otherwise; it leaves the packet.
abbrev pub Accepts : Callback → (address : ℕ) → (ℕ → Bool) → (error : ℕ) → Type 0
Accepts call address good error =
    (h : List (ℕ × Iopkt)) (p : Iopkt)
    → call h address p ≡ (if good p.ioarea then pos 1 else negsuc error, p)

exec-eq :
    (call : Callback) (good : ℕ → Bool) (error d : ℕ) (b : DrvDesc) (p : Iopkt) (k : Kernel)
    → (k.drvcbt d).desc ≡ some b
    → Accepts call (b.callbacks p.function) good error
    → drv_exec call d p k
      ≡ ok
          (if good p.ioarea then pos 1 else negsuc error, p)
          (record k { calls = (b.callbacks p.function, p) ∷ k.calls })
unfolding drv_exec
exec-eq call good error d b p k e accepts = rw (e, accepts k.calls p, drv_exec) refl

write_from-stops :
    (call : Callback) (d left i : ℕ) (buffer : ℕ → ℕ) (p : Iopkt) (error n : ℕ) (k : Kernel)
    → write_from call d left i buffer p (negsuc error) n k ≡ ok (negsuc error, n) k
unfolding write_from
write_from-stops call d zero i buffer p error n k = refl
write_from-stops call d (suc left) i buffer p error n k = refl

write_from-sent :
    (call : Callback) (good : ℕ → Bool) (error d : ℕ) (b : DrvDesc) (left i : ℕ) (buffer : ℕ → ℕ)
    (p : Iopkt) (r n : ℕ) (k : Kernel)
    → (k.drvcbt d).desc ≡ some b
    → Accepts call (b.callbacks p.function) good error
    → n + left < 65536
    → write_from call d left i buffer p (pos r) n k
      ≡ ok
          (last_rc good error left i buffer r, n + good_prefix good left i buffer)
          (record k { calls = sent good (b.callbacks p.function) p left i buffer k.calls })
unfolding write_from
write_from-sent call good error d b zero i buffer p r n k e accepts lt =
    let same : n + 0 ≡ n = omega arith in rw same refl
write_from-sent call good error d b (suc left) i buffer p r n k e accepts lt =
    let p' : Iopkt = record p { ioarea = buffer i } in
    let step = exec-eq call good error d b p' k e accepts in
    elim (Bool-cases (good (buffer i))) [
      | inl takes ↦
          let count : (n + 1) % 2 ^ 16 ≡ n + 1 = omega arith in
          let total : (n + 1) + good_prefix good left (suc i) buffer
              ≡ n + suc (good_prefix good left (suc i) buffer) =
            omega arith in
          let rest =
            write_from-sent call good error d b left (suc i) buffer p' 1 (n + 1)
              (record k { calls = (b.callbacks p.function, p') ∷ k.calls }) e accepts
              (omega arith) in
          rw (step, takes, count) (rw total at rest)
      | inr refuses ↦
          let same : (n + 0) % 2 ^ 16 ≡ n + 0 = omega arith in
          rw (step, refuses, same)
            (write_from-stops call d left (suc i) buffer p' error (n + 0)
              (record k { calls = (b.callbacks p.function, p') ∷ k.calls }))
    ]

opened-write :
    (call : Callback) (channel size : ℕ) (buffer : ℕ → ℕ) (k : Kernel) (d : ℕ) (b : DrvDesc)
    → (k.iott channel).open_flag ≡ true
    → (k.iott channel).driver ≡ some d
    → (k.drvcbt d).desc ≡ some b
    → b.buffered ≡ false
    → write_open call channel size buffer k
      ≡ write_from call d size 0 buffer (byte_iopkt drv_write (k.iott channel)) (pos 0) 0 k
unfolding write_open
opened-write call channel size buffer k d b is_open drv desc plain =
    ground (arith, is_open, drv, desc, plain)

-- On an open channel without buffer, whose driver takes the good bytes and answers a bad one with
-- an error, WRITE calls the driver with the bytes one by one, up to the first bad one or the end,
-- and returns the number of bytes before it. `errno` and the channel's error flag tell whether
-- there was one, and all else is as before.
pub svc_write-sent :
    (call : Callback) (good : ℕ → Bool) (error : ℕ) (fp : Frame) (channel size : ℕ) (buffer : ℕ → ℕ)
    (k : Kernel) (c d : ℕ) (b : DrvDesc)
    → k.curtcb ≡ some c
    → (k.iott channel).open_flag ≡ true
    → (k.iott channel).driver ≡ some d
    → (k.drvcbt d).desc ≡ some b
    → b.buffered ≡ false
    → Accepts call (b.callbacks drv_write) good error
    → size < 65536
    → svc_write call fp channel size buffer k
      ≡ ok (good_prefix good size 0 buffer) (record k {
        calls =
            sent good
              (b.callbacks drv_write)
              (byte_iopkt drv_write (k.iott channel))
              size
              0
              buffer
              k.calls;
        t_errno =
            update k.t_errno c
              (if good_prefix good size 0 buffer == size then eok else negsuc error);
        iott =
            update k.iott channel
              (record (k.iott channel) { ioerror = not (good_prefix good size 0 buffer == size) });
      })
unfolding svc_write
svc_write-sent call good error fp channel size buffer k c d b cur is_open drv desc plain accepts
      lt =
    let loop =
      write_from-sent call good error d b size 0 buffer (byte_iopkt drv_write (k.iott channel)) 0 0
        k desc accepts (omega (arith, lt)) in
    let count : 0 + good_prefix good size 0 buffer ≡ good_prefix good size 0 buffer = omega arith in
    let negative = last_rc-neg good error size 0 buffer 0 in
    let code = last_rc-errno good error size 0 buffer 0 in
    rw (opened-write call channel size buffer k d b is_open drv desc plain, loop)
      (rw (cur, code, negative, count) refl)
