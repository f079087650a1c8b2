-- ===== src/Console/Expand.antt =====
-- What a format stands for, written out without the device.
use muxx.Prelude.{ℕ, ◌+◌, List, [], ◌∷◌, ◌++◌, ◌==◌, if◌then◌else◌}
use muxx.Console.{
  Kind, char, string, octal, long_octal, decimal, long_decimal, hex, unknown, kind_of, Args, itoo,
  itool, itods, itodl, itoh,
}

-- The bytes that an argument is shown as, with the number of its words; for a letter that is no
-- directive, the percent sign.
unfoldable pub shown : Args → Kind → (next : ℕ) → List ℕ × ℕ
shown a char next = (a.words next ∷ [], 1)
shown a string next = (a.text (a.words next), 1)
shown a octal next = (itoo (a.words next), 1)
shown a long_octal next = (itool (a.words next) (a.words (next + 1)), 2)
shown a decimal next = (itods (a.words next), 1)
shown a long_decimal next = (itodl a.overflow (a.words next) (a.words (next + 1)), 2)
shown a hex next = (itoh (a.words next), 1)
shown a unknown next = (b'%' ∷ [], 0)

-- What it counts for in the result.
unfoldable pub counts : Kind → ℕ
counts char = 1
counts string = 0
counts octal = 0
counts long_octal = 0
counts decimal = 0
counts long_decimal = 0
counts hex = 0
counts unknown = 1

-- A byte that is no percent sign, with its count: a newline is sent as two.
abbrev pub plain_shown : (c : ℕ) → List ℕ × ℕ
plain_shown c = if c == b'\n' then (b'\r' ∷ b'\n' ∷ [], 2) else (c ∷ [], 1)

-- The whole text, and its count, for a format that does not end in a percent sign.
unfoldable pub expand : Args → (fmt : List ℕ) → (next : ℕ) → List ℕ × ℕ
expand a [] next = ([], 0)
expand a (c ∷ []) next = plain_shown c
expand a (c ∷ d ∷ fmt) next =
    let (bytes, words) = shown a (kind_of d) next in
    let (behind, n) = expand a fmt (next + words) in
    let (rest, m) = expand a (d ∷ fmt) next in
    if c == b'%'
    then (bytes ++ behind, counts (kind_of d) + n)
    else ((plain_shown c).0 ++ rest, (plain_shown c).1 + m)
