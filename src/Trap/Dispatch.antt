-- ===== src/Trap/Dispatch.antt =====
-- Which service a trap number reaches, and what an exception saves.
use muxx.Prelude.{
  ℕ, zero, suc, ◌≡◌, ◌<◌, ◌≤◌, refl, none, some, List, [], ◌∷◌, ltb, get_elem?, length, arith, true,
  false,
}
use muxx.Prelude.Int.{ℤ}
use muxx.Errors.{einvval}
use muxx.Kernel.{Kernel, ok, halted, fault, Cmd, set_task}
use muxx.Sched.{Frame, save_frame, copytrapfp, copy_mmu_state}
use muxx.Trap.{
  Service, abort_svc, alloc, close_svc, conputc, creprc, drvreg, drvstart, drvstop, exit_svc,
  gettpi, loadprc, mutex, muxxhlt, open_svc, protmem, read_svc, suspend, unimpl, write_svc, xcopy,
  yield_svc, trap_table, systrap_handler, handle_exception, handle_mmuerr,
}
use muxx.Trap.Calls.{
  Macro, syshalt_call, yield_call, conputc_call, congetc_call, creprc_call, loadprc_call,
  gettpi_call, suspend_call, drvreg_call, exit_call, abort_call, mutex_call, alloc_call, open_call,
  close_call, drvstart_call, drvstop_call, write_call, read_call, xcopy_call, protmem_call,
  trap_number, trap_name,
}

get_elem?-beyond : {A : Type 0} (xs : List A) (i : ℕ) → length xs ≤ i → get_elem? xs i ≡ none
get_elem?-beyond [] i le = refl
get_elem?-beyond (x ∷ xs) zero le = absurd (omega (arith, le))
get_elem?-beyond (x ∷ xs) (suc i) le = get_elem?-beyond xs i (omega (arith, le))

-- The service that each macro is for. There is none that reads from the console.
abbrev pub intended : Macro → Service
intended syshalt_call = muxxhlt
intended yield_call = yield_svc
intended conputc_call = conputc
intended congetc_call = unimpl
intended creprc_call = creprc
intended loadprc_call = loadprc
intended gettpi_call = gettpi
intended suspend_call = suspend
intended drvreg_call = drvreg
intended exit_call = exit_svc
intended abort_call = abort_svc
intended mutex_call = mutex
intended alloc_call = alloc
intended open_call = open_svc
intended close_call = close_svc
intended drvstart_call = drvstart
intended drvstop_call = drvstop
intended write_call = write_svc
intended read_call = read_svc
intended xcopy_call = xcopy
intended protmem_call = protmem

-- The service that a macro reaches: ABORT does not reach its own.
abbrev pub reached : Macro → Service
reached abort_call = exit_svc
reached call = intended call

trap_table-reached :
    (call : Macro) → get_elem? trap_table (trap_number (trap_name call)) ≡ some (reached call)
trap_table-reached syshalt_call = refl
trap_table-reached yield_call = refl
trap_table-reached conputc_call = refl
trap_table-reached congetc_call = refl
trap_table-reached creprc_call = refl
trap_table-reached loadprc_call = refl
trap_table-reached gettpi_call = refl
trap_table-reached suspend_call = refl
trap_table-reached drvreg_call = refl
trap_table-reached exit_call = refl
trap_table-reached abort_call = refl
trap_table-reached mutex_call = refl
trap_table-reached alloc_call = refl
trap_table-reached open_call = refl
trap_table-reached close_call = refl
trap_table-reached drvstart_call = refl
trap_table-reached drvstop_call = refl
trap_table-reached write_call = refl
trap_table-reached read_call = refl
trap_table-reached xcopy_call = refl
trap_table-reached protmem_call = refl

trap_number-small : (call : Macro) → trap_number (trap_name call) < 40
trap_number-small syshalt_call = omega arith
trap_number-small yield_call = omega arith
trap_number-small conputc_call = omega arith
trap_number-small congetc_call = omega arith
trap_number-small creprc_call = omega arith
trap_number-small loadprc_call = omega arith
trap_number-small gettpi_call = omega arith
trap_number-small suspend_call = omega arith
trap_number-small drvreg_call = omega arith
trap_number-small exit_call = omega arith
trap_number-small abort_call = omega arith
trap_number-small mutex_call = omega arith
trap_number-small alloc_call = omega arith
trap_number-small open_call = omega arith
trap_number-small close_call = omega arith
trap_number-small drvstart_call = omega arith
trap_number-small drvstop_call = omega arith
trap_number-small write_call = omega arith
trap_number-small read_call = omega arith
trap_number-small xcopy_call = omega arith
trap_number-small protmem_call = omega arith

-- Every macro of h/MUXXMAC.s, with its number of h/muxxdef.h, makes the dispatcher run the service
-- that the macro is for; only ABORT runs EXIT, and reading from the console is not implemented. A
-- number behind the forty of the table is refused only from 161 on, and up to 160 it makes the
-- dispatcher read behind the table.
pub systrap_handler-reached :
    (run : Service → Cmd ℤ) (k : Kernel)
    → ((call : Macro) → systrap_handler run (trap_number (trap_name call)) k ≡ run (reached call) k)
      × ((n : ℕ) → 40 ≤ n → n ≤ 160 → systrap_handler run n k ≡ fault)
      × ((n : ℕ) → 160 < n → systrap_handler run n k ≡ ok einvval k)
unfolding systrap_handler
systrap_handler-reached run k = (
  λ call.
      let small = trap_number-small call in
      let test : ltb 160 (trap_number (trap_name call)) ≡ false = ground (arith, small) in
      rw (test, trap_table-reached call) refl,
  λ n le le'.
      let test : ltb 160 n ≡ false = ground arith in
      rw (test, get_elem?-beyond trap_table n (omega (arith, le))) refl,
  λ n lt. let test : ltb 160 n ≡ true = ground arith in rw test refl,
)

-- An exception halts the kernel with the frame saved in the block of the running task; at an MMU
-- error the memory map is saved too. Nothing else changes but the priority level.
pub handle_exception-saves :
    (fp : Frame) (k : Kernel) (c : ℕ)
    → k.curtcb ≡ some c
    → (handle_exception fp k
        ≡ halted (record k {
          ipl = 7;
          tct = set_task c (λ b. record b { cpu_state = save_frame fp b.cpu_state }) k.tct;
        }))
      × (handle_mmuerr fp k
          ≡ halted (record k {
            ipl = 7;
            tct =
                set_task c
                  (λ b. record b { cpu_state = save_frame fp b.cpu_state; mmu_state = k.mmu })
                  k.tct;
          }))
unfolding handle_exception handle_mmuerr copytrapfp copy_mmu_state
handle_exception-saves fp k c cur = (rw cur refl, ground (arith, cur))
