-- ===== src/Tests/Output.antt =====
-- kernel/kprintf.c on a console that answers.
use muxx.Prelude.{
  ℕ, ◌^◌, ◌+◌, ◌*◌, ◌≡◌, refl, true, List, [], ◌∷◌, arith, length, if◌then◌else◌, ltb,
}
use muxx.Console.{
  Console, Args, done, beyond, kprintf, itoo, itool, digits, kconputc, kputstr, put_all, directive,
  plain, kprintf_from,
}
use muxx.Console.Digits.{read_digits, itool-value}
use muxx.Console.Expand.{expand}
use muxx.Console.Prints.{low_bytes, kprintf-expands}

abbrev screen : Console
screen = record { out = []; answers = λ i. true; waits = 0 }

abbrev an_argument : Args
an_argument = record { words = λ i. 0o1754; text = λ a. []; overflow = λ w. (0, 0) }

-- "A=%o\n"
abbrev a_format : List ℕ
a_format = b'A' ∷ b'=' ∷ b'%' ∷ b'o' ∷ b'\n' ∷ []

-- Four characters are counted, of the ten that are sent.
abbrev shown_bytes : List ℕ
shown_bytes = b'A' ∷ b'=' ∷ b'0' ∷ b'0' ∷ b'1' ∷ b'7' ∷ b'5' ∷ b'4' ∷ b'\r' ∷ b'\n' ∷ []

sent :
    kprintf an_argument a_format screen ≡ done 4 (record screen { out = shown_bytes; waits = 20 })
unfolding kprintf kprintf_from directive plain put_all kputstr kconputc itoo digits
sent = refl

-- A percent sign at the end takes `kprintf` behind the end.
percent :
    kprintf an_argument (b'%' ∷ []) screen ≡ beyond (record screen { out = b'%' ∷ []; waits = 2 })
unfolding kprintf kprintf_from kconputc
percent = refl

kprintf-expands_example :
    (left : Console) × (kprintf an_argument a_format screen
      ≡ done (expand an_argument a_format 0).1 left)
    × (left.out ≡ low_bytes (expand an_argument a_format 0).0)
kprintf-expands_example = kprintf-expands an_argument a_format screen refl (λ i. refl)

itool-value_example :
    (read_digits 8 0 (itool 3 5) ≡ 3 * 2 ^ 16 + 5 + (if ltb 3 (2 ^ 15) then 0 else 2 ^ 32))
    × (length (itool 3 5) ≡ 11)
itool-value_example = itool-value 3 5 (omega arith) (omega arith)
