-- ===== src/Config.antt =====
-- Constants of h/CONFIG.s (config.h is generated from it), h/SCB.s and h/muxxdef.h.
use muxx.Prelude.{ℕ}

-- Sizes of the kernel's tables.
abbrev pub max_tasks : ℕ
max_tasks = 16

abbrev pub max_drv : ℕ
max_drv = 8

abbrev pub mem_nmcbs : ℕ
mem_nmcbs = 128

abbrev pub drv_bufsiz : ℕ
drv_bufsiz = 2048

abbrev pub iot_tentries : ℕ
iot_tentries = 5

abbrev pub iot_sentries : ℕ
iot_sentries = 16

abbrev pub page_size : ℕ
page_size = 0o20000

abbrev pub task_base : ℕ
task_base = 0o60000

-- Task types.
abbrev pub sys_task : ℕ
sys_task = 0

abbrev pub usr_task : ℕ
usr_task = 1

abbrev pub drv_task : ℕ
drv_task = 2

-- Task size and stack size fields of the type word.
abbrev pub tsz_med : ℕ
tsz_med = 0o10

abbrev pub tsz_big : ℕ
tsz_big = 0o20

abbrev pub tsz_smalls : ℕ
tsz_smalls = 0

-- Task states.
pub data TaskStatus : Type 0 where
  init ready blocked run susp dispose : TaskStatus

-- System mutexes and operations on them.
abbrev pub mut_mutexes : ℕ
mut_mutexes = 16

abbrev pub mut_drv : ℕ
mut_drv = 5

abbrev pub mut_chan : ℕ
mut_chan = 6

abbrev pub mut_read : ℕ
mut_read = 0

abbrev pub mut_alloc : ℕ
mut_alloc = 1

abbrev pub mut_dealloc : ℕ
mut_dealloc = 2

-- Device driver callbacks, and the operations of `alloc`.
abbrev pub drv_start : ℕ
drv_start = 0

abbrev pub drv_stop : ℕ
drv_stop = 1

abbrev pub drv_read : ℕ
drv_read = 4

abbrev pub drv_write : ℕ
drv_write = 5

abbrev pub drv_alloc : ℕ
drv_alloc = 0

abbrev pub drv_dealloc : ℕ
drv_dealloc = 1

-- Page descriptor words: access | size | direction. The bits do not overlap.
abbrev pub pdr_acc_rw : ℕ
pdr_acc_rw = 0x0006

abbrev pub pdr_acc_ro : ℕ
pdr_acc_ro = 0x0002

abbrev pub pdr_acc_na : ℕ
pdr_acc_na = 0x0000

abbrev pub pdr_dir_dn : ℕ
pdr_dir_dn = 0x0008

abbrev pub pdr_siz_1k : ℕ
pdr_siz_1k = 0x1000

abbrev pub pdr_siz_4k : ℕ
pdr_siz_4k = 0x4000

abbrev pub pdr_siz_8k : ℕ
pdr_siz_8k = 0x7f00

-- Flag bits of memory control blocks.
abbrev pub mmcb_flg_stk : ℕ
mmcb_flg_stk = 0x0010

abbrev pub mmcb_flg_buf : ℕ
mmcb_flg_buf = 0x0020

abbrev pub pdr_dir_up : ℕ
pdr_dir_up = 0x0000
