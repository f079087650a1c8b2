-- ===== src/Errors.antt =====
-- The error numbers of h/errors.h.
use muxx.Prelude.Int.{ℤ, pos, negsuc}

abbrev pub eok : ℤ
eok = pos 0

abbrev pub enomem : ℤ
enomem = negsuc 0

abbrev pub emaxtask : ℤ
emaxtask = negsuc 1

abbrev pub enopid : ℤ
enopid = negsuc 2

abbrev pub etctfull : ℤ
etctfull = negsuc 3

abbrev pub einvval : ℤ
einvval = negsuc 5

abbrev pub enopriv : ℤ
enopriv = negsuc 6

abbrev pub elocked : ℤ
elocked = negsuc 7

abbrev pub enoavail : ℤ
enoavail = negsuc 8

abbrev pub enotalloc : ℤ
enotalloc = negsuc 9

abbrev pub enotfound : ℤ
enotfound = negsuc 10

abbrev pub eoffline : ℤ
eoffline = negsuc 12

abbrev pub enotopen : ℤ
enotopen = negsuc 13

abbrev pub enosysres : ℤ
enosysres = negsuc 14

abbrev pub eeof : ℤ
eeof = negsuc 15

abbrev pub enoimpl : ℤ
enoimpl = negsuc 998

abbrev pub einvload : ℤ
einvload = negsuc 16
