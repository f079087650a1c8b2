-- ===== src/Dump/Sizes.antt =====
-- Where the dumps show something else than what is there.
use muxx.Prelude.{ℕ, ◌+◌, ◌*◌, ◌/◌, ◌%◌, ◌^◌, ◌≡◌, ◌≤◌, refl, ◌==◌, if◌then◌else◌, arith, false}
use muxx.Config.{tsz_med, tsz_big, tsz_smalls}
use muxx.Types.{MmuState}
use muxx.TaskMem.{stack_size}
use muxx.Xcopy.{physical}
use muxx.Dump.{vtop, stack_name}

-- `muxx_vtop` keeps 14 bits of the address: in the second half of each 16 KB it gives 8 KB too
-- much, and below that the physical address, as long as both fit a word.
pub vtop-physical :
    (m : MmuState) (v : ℕ)
    → m.kpar (v / 8192) * 64 + 16384 ≤ 2 ^ 16
    → vtop v (m.kpar (v / 8192)) ≡ physical m v + (if v / 8192 % 2 == 1 then 8192 else 0)
unfolding vtop
vtop-physical m v fits = ground (arith, fits)

-- The dump of a task names no stack size but the small one.
pub stack_name-cases :
    (type : ℕ)
    → stack_name type ≡ (if stack_size type == tsz_smalls then "SMALLS \n" else "INVAL  \n")
unfolding stack_name
stack_name-cases type =
    let not_med : (stack_size type == tsz_med) ≡ false = ground arith in
    let not_big : (stack_size type == tsz_big) ≡ false = ground arith in rw (not_med, not_big) refl
