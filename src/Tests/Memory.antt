-- ===== src/Tests/Memory.antt =====
-- kernel/muxx_memsvc.c on the table that the kernel starts with.
use muxx.Prelude.{◌≡◌, refl, arith}
use muxx.Types.{Mmcbt}
use muxx.Mem.{find_free_from, find_free_mmcb, scan, carve, block, take_from, mem_getblock, mem_init}
use muxx.Mem.Layout.{IsGrown, mem_init-IsFresh}
use muxx.Mem.Grow.{IsGranted, IsAnswer, mem_getblock-IsGrown, mem_getblock-IsAnswer}
use muxx.Mem.Sound.{IsSound, mem_init-IsSound, mem_getblock-IsSound}

-- The first task gets a page: MMCB 6 and the blocks from 0700 on.
abbrev one_given : Mmcbt
one_given = record { num_entries = 128; mmcbt = carve 4 6 65 128 0 3 mem_init.mmcbt }

first_page : mem_getblock 128 65 128 0 3 mem_init ≡ block 6 one_given
unfolding mem_getblock scan take_from find_free_mmcb find_free_from mem_init
first_page = refl

one_given-IsGrown : IsGrown one_given.mmcbt × IsGranted 65 128 0 3 mem_init 6 one_given
unfolding mem_init
one_given-IsGrown =
    mem_getblock-IsGrown 128 65 128 0 3 6 mem_init one_given mem_init-IsFresh.listed (omega arith)
      (omega arith) first_page

mem_getblock-IsSound_example : IsSound one_given
mem_getblock-IsSound_example =
    mem_getblock-IsSound 128 65 128 0 3 6 mem_init one_given (omega arith, omega arith)
      mem_init-IsSound first_page

mem_getblock-IsAnswer_example :
    IsAnswer 65 64 16 6 one_given (mem_getblock 128 65 64 16 6 one_given)
unfolding carve mem_init
mem_getblock-IsAnswer_example =
    mem_getblock-IsAnswer 128 65 64 16 6 one_given (omega arith) (omega arith) one_given-IsGrown.0
      (omega arith)
