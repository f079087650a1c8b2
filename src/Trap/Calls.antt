-- ===== src/Trap/Calls.antt =====
-- How the user's tasks call the services: the numbers of h/muxxdef.h and the macros of
-- h/MUXXMAC.s, each of which executes a TRAP with one of these numbers.
use muxx.Prelude.{ℕ, ◌+◌}

-- The numbers' names.
pub data TrapName : Type 0 where
  krn_halt srv_creprc srv_delprc srv_chgprc srv_loadprc srv_unload srv_getcore : TrapName
  srv_freecore srv_suspend srv_awake srv_open srv_close srv_ioctl srv_read : TrapName
  srv_write srv_create srv_delete srv_send srv_receive srv_cresem srv_delsem : TrapName
  srv_incsem srv_decsem srv_getshm srv_freeshm srv_mutex srv_yield srv_gettpi : TrapName
  srv_exit srv_abort srv_alloc krn_drvreg krn_drvunreg krn_drvstart krn_drvstop : TrapName
  krn_bugcheck krn_putcon krn_getcon krn_xcopy krn_protmem : TrapName

abbrev srv_last : ℕ
srv_last = 30

abbrev pub trap_number : TrapName → ℕ
trap_number krn_halt = 0
trap_number srv_creprc = 1
trap_number srv_delprc = 2
trap_number srv_chgprc = 3
trap_number srv_loadprc = 4
trap_number srv_unload = 5
trap_number srv_getcore = 6
trap_number srv_freecore = 7
trap_number srv_suspend = 8
trap_number srv_awake = 9
trap_number srv_open = 10
trap_number srv_close = 11
trap_number srv_ioctl = 12
trap_number srv_read = 13
trap_number srv_write = 14
trap_number srv_create = 15
trap_number srv_delete = 16
trap_number srv_send = 17
trap_number srv_receive = 18
trap_number srv_cresem = 19
trap_number srv_delsem = 20
trap_number srv_incsem = 21
trap_number srv_decsem = 22
trap_number srv_getshm = 23
trap_number srv_freeshm = 24
trap_number srv_mutex = 25
trap_number srv_yield = 26
trap_number srv_gettpi = 27
trap_number srv_exit = 28
trap_number srv_abort = 29
trap_number srv_alloc = 30
trap_number krn_drvreg = srv_last + 1
trap_number krn_drvunreg = srv_last + 2
trap_number krn_drvstart = srv_last + 3
trap_number krn_drvstop = srv_last + 4
trap_number krn_bugcheck = srv_last + 5
trap_number krn_putcon = srv_last + 6
trap_number krn_getcon = srv_last + 7
trap_number krn_xcopy = srv_last + 8
trap_number krn_protmem = srv_last + 9

-- The macros.
pub data Macro : Type 0 where
  syshalt_call yield_call conputc_call congetc_call creprc_call loadprc_call : Macro
  gettpi_call suspend_call drvreg_call exit_call abort_call mutex_call : Macro
  alloc_call open_call close_call drvstart_call drvstop_call write_call : Macro
  read_call xcopy_call protmem_call : Macro

-- The name in the macro's TRAP instruction.
abbrev pub trap_name : Macro → TrapName
trap_name syshalt_call = krn_halt
trap_name yield_call = srv_yield
trap_name conputc_call = krn_putcon
trap_name congetc_call = krn_getcon
trap_name creprc_call = srv_creprc
trap_name loadprc_call = srv_loadprc
trap_name gettpi_call = srv_gettpi
trap_name suspend_call = srv_suspend
trap_name drvreg_call = krn_drvreg
trap_name exit_call = srv_exit
trap_name abort_call = srv_exit
trap_name mutex_call = srv_mutex
trap_name alloc_call = srv_alloc
trap_name open_call = srv_open
trap_name close_call = srv_close
trap_name drvstart_call = krn_drvstart
trap_name drvstop_call = krn_drvstop
trap_name write_call = srv_write
trap_name read_call = srv_read
trap_name xcopy_call = krn_xcopy
trap_name protmem_call = krn_protmem
