-- ===== src/Console.antt =====
-- Output to the console: kernel/kprintf.c, muxx_kconio.s and muxx_kconio1.c, and the conversions
-- of lib/itoo.s, itod.s and itoh.s. A string is the list of the bytes before its 0.
pub mod Digits
pub mod Expand
pub mod Prints
use muxx.Prelude.{
  ℕ, zero, suc, ◌+◌, ◌-◌, ◌*◌, ◌/◌, ◌%◌, ◌^◌, Bool, true, false, ◌||◌, List, [], ◌∷◌, ◌++◌, ◌==◌,
  ltb, if◌then◌else◌,
}

-- What has been sent, and whether the device gets ready in time, for each time it is waited for.
pub record Console : Type 0 where
  pub out : List ℕ
  pub answers : ℕ → Bool
  pub waits : ℕ

abbrev waited : Console → Console
waited s = record s { waits = s.waits + 1 }

-- A byte is sent between two waits. The result is 0, or 1 for a timeout.
unfoldable pub kconputc : ℕ → Console → ℕ × Console
kconputc c s =
    if s.answers s.waits
    then (let sent = record (waited s) { out = s.out ++ c % 2 ^ 8 ∷ [] } in
        (if sent.answers sent.waits then 0 else 1, waited sent))
    else (1, waited s)

-- The bytes `b` and `bs`, whatever comes of each; the result is that of the last one. The length
-- that the C code passes is never 0.
unfoldable pub kputstr : (b : ℕ) → (bs : List ℕ) → Console → ℕ × Console
kputstr b [] s = kconputc b s
kputstr b (c ∷ bs) s = kputstr c bs (kconputc b s).1

-- The result is the 0 behind the string.
unfoldable pub kputstrz : List ℕ → Console → ℕ × Console
kputstrz [] s = (0, s)
kputstrz (b ∷ bs) s = kputstrz bs (kconputc b s).1

-- With a line feed and a carriage return behind; the result is that of these.
abbrev pub kputstrl : (b : ℕ) → (bs : List ℕ) → Console → ℕ × Console
kputstrl b bs s = kputstr b'\n' (b'\r' ∷ []) (kputstr b bs s).1

abbrev pub kputstrzl : List ℕ → Console → ℕ × Console
kputstrzl bs s = kputstr b'\n' (b'\r' ∷ []) (kputstrz bs s).1

-- The lowest `n` digits of `w` to the given base, as characters, the lowest last.
unfoldable pub digits : (base : ℕ) → (char : ℕ → ℕ) → (n : ℕ) → (w : ℕ) → List ℕ
digits base char zero w = []
digits base char (suc n) w = digits base char n (w / base) ++ char (w % base) ∷ []

abbrev pub ascii_digit : ℕ → ℕ
ascii_digit d = b'0' + d

-- `htab`
abbrev pub hex_digit : ℕ → ℕ
hex_digit d = if ltb d 10 then b'0' + d else b'A' + (d - 10)

-- One bit, and five groups of three.
unfoldable pub itoo : ℕ → List ℕ
itoo w = ascii_digit (w / 8 ^ 5 % 2) ∷ digits 8 ascii_digit 5 w

-- `ash $-2`, which copies the highest bit.
abbrev pub ash2 : ℕ → ℕ
ash2 w = w / 4 + (if ltb w (2 ^ 15) then 0 else 0xc000)

-- Five groups of the high word's upper 14 bits, a digit of both words, and five groups.
unfoldable pub itool : (high low : ℕ) → List ℕ
itool high low =
    digits 8 ascii_digit 5 (ash2 high)
    ++ ascii_digit (high % 4 * 2 + low / 8 ^ 5 % 2) ∷ digits 8 ascii_digit 5 low

abbrev pub itod : ℕ → List ℕ
itod w = digits 10 ascii_digit 5 w

-- The sign, and the digits of the absolute value.
unfoldable pub itods : ℕ → List ℕ
itods w = if ltb w (2 ^ 15) then b' ' ∷ itod w else b'-' ∷ itod (2 ^ 16 - w)

-- What the processor's division by 10000 leaves, quotient and remainder. For a quotient that does
-- not fit and for a number whose highest bit is set it is a parameter.
abbrev pub Overflow : Type 0
Overflow = ℕ → ℕ × ℕ

abbrev pub divided : Overflow → ℕ → ℕ × ℕ
divided overflow w = if ltb (w / 10000) (2 ^ 15) then (w / 10000, w % 10000) else overflow w

unfoldable pub itodl : Overflow → (high low : ℕ) → List ℕ
itodl overflow high low =
    let (q, r) = divided overflow (high * 2 ^ 16 + low) in itod q ++ digits 10 ascii_digit 4 r

unfoldable pub itoh : ℕ → List ℕ
itoh w = digits 16 hex_digit 4 w

-- `kputstr(buffer, n)` of a conversion's `n` bytes.
unfoldable pub put_all : List ℕ → Console → ℕ × Console
put_all [] s = (0, s)
put_all (b ∷ bs) s = kputstr b bs s

unfoldable pub kputoct : ℕ → Console → ℕ × Console
kputoct w s = put_all (itoo w) s

-- The arguments are words on the stack, and a word can be the address of a string.
pub record Args : Type 0 where
  pub words : ℕ → ℕ
  pub text : ℕ → List ℕ
  pub overflow : Overflow

-- The variables of `kprintf`; `next` is the number of the next argument word.
pub record Print : Type 0 where
  pub next : ℕ
  pub numc : ℕ
  pub rc : ℕ
  pub console : Console

-- `kprintf` returns, or it goes on behind the 0 that ends the format.
pub data Printed : Type 0 where
  done : (rc : ℕ) → Console → Printed
  beyond : Console → Printed

-- After one directive or byte: the loop goes on, or the function returns.
pub data Turn : Type 0 where
  goes_on : Print → Turn
  returns : (rc : ℕ) → Console → Turn

-- `rc = PUTSTR(…); if (rc >= 0) numc += rc;` where no result is negative.
abbrev pub counted : (words : ℕ) → Print → ℕ × Console → Turn
counted words p (rc, s) =
    goes_on (record { next = p.next + words; numc = p.numc + rc; rc = rc; console = s })

-- `if (rc == 0) numc += n; else return rc;`
abbrev pub literal : (n : ℕ) → Print → ℕ × Console → Turn
literal n p (rc, s) =
    if rc == 0 then goes_on (record p { numc = p.numc + n; rc = rc; console = s }) else returns rc s

-- The cases of the second `switch`.
pub data Kind : Type 0 where
  char string octal long_octal decimal long_decimal hex unknown : Kind

abbrev pub kind_of : (letter : ℕ) → Kind
kind_of letter =
    if letter == b'c'
    then char
    else if letter == b's'
    then string
    else if letter == b'o'
    then octal
    else if letter == b'O'
    then long_octal
    else if letter == b'd'
    then decimal
    else if letter == b'l'
    then long_decimal
    else if (letter == b'x') || (letter == b'X')
    then hex
    else unknown

-- After a `%`. For `d` the result is not assigned, so the one before counts again.
unfoldable pub directive : Args → Kind → Print → Turn
directive a char p =
    let (rc, s) = kconputc (a.words p.next) p.console in
    goes_on (record {
      next = p.next + 1;
      numc = if rc == 0 then p.numc + 1 else p.numc;
      rc = rc;
      console = s;
    })
directive a string p = counted 1 p (kputstrz (a.text (a.words p.next)) p.console)
directive a octal p = counted 1 p (put_all (itoo (a.words p.next)) p.console)
directive a long_octal p =
    counted 2 p (put_all (itool (a.words p.next) (a.words (p.next + 1))) p.console)
directive a decimal p = counted 1 p (p.rc, (put_all (itods (a.words p.next)) p.console).1)
directive a long_decimal p =
    counted 2 p (put_all (itodl a.overflow (a.words p.next) (a.words (p.next + 1))) p.console)
directive a hex p = counted 1 p (put_all (itoh (a.words p.next)) p.console)
directive a unknown p = literal 1 p (kconputc b'%' p.console)

unfoldable pub plain : (c : ℕ) → Print → Turn
plain c p =
    if c == b'\n'
    then literal 2 p (kputstr b'\r' (b'\n' ∷ []) p.console)
    else literal 1 p (kconputc c p.console)

unfoldable pub kprintf_from : Args → (fmt : List ℕ) → Print → Printed
kprintf_from a [] p = done p.numc p.console
kprintf_from a (c ∷ []) p =
    if c == b'%'
    then elim (literal 1 p (kconputc b'%' p.console)) [
      | goes_on q ↦ beyond q.console
      | returns rc s ↦ done rc s
    ]
    else elim (plain c p) [ goes_on q ↦ done q.numc q.console | returns rc s ↦ done rc s ]
kprintf_from a (c ∷ d ∷ fmt) p =
    if c == b'%'
    then elim (directive a (kind_of d) p) [
      | goes_on q ↦ kprintf_from a fmt q
      | returns rc s ↦ done rc s
    ]
    else elim (plain c p) [ goes_on q ↦ kprintf_from a (d ∷ fmt) q | returns rc s ↦ done rc s ]

unfoldable pub kprintf : Args → (fmt : List ℕ) → Console → Printed
kprintf a fmt s = kprintf_from a fmt (record { next = 0; numc = 0; rc = 0; console = s })
