-- ===== src/User/Conio.antt =====
-- lib/conio.c, and lib/stdio/putc.c and puts.c: output of a task byte by byte through CONPUTC,
-- which is the kernel's `kconputc`.
use muxx.Prelude.{
  ℕ, List, [], ◌∷◌, ◌==◌, ◌≡◌, ◌<◌, ◌+◌, ◌%◌, ◌^◌, ◌++◌, ◌∙◌, refl, ap, sym, append-nil,
  append_assoc, true, arith, length, if◌then◌else◌, inl, inr, Bool-cases,
}
use muxx.Console.{Console, kconputc, itoo}
use muxx.Console.Prints.{Answers, Sends, low_bytes, kconputc-Sends}

-- The service CONPUTC.
abbrev pub svc_conputc : (c : ℕ) → Console → ℕ × Console
svc_conputc = kconputc

-- It stops at the first byte that is not sent in time.
unfoldable pub putstr : List ℕ → Console → ℕ × Console
putstr [] s = (0, s)
putstr (b ∷ bs) s =
    let (rc, s') = svc_conputc b s in let rest = putstr bs s' in if rc == 0 then rest else (rc, s')

abbrev pub crlf : List ℕ
crlf = b'\r' ∷ b'\n' ∷ []

unfoldable pub putoct : (w : ℕ) → Console → ℕ × Console
putoct w s = putstr (itoo w) s

-- `rc = …; if (rc == 0) rc = putstr(CRLF, 2);`
unfoldable pub putstrl : List ℕ → Console → ℕ × Console
putstrl bs s = let (rc, s') = putstr bs s in if rc == 0 then putstr crlf s' else (rc, s')

-- Up to the 0 of a string.
unfoldable pub putstrz : List ℕ → Console → ℕ × Console
putstrz [] s = (0, s)
putstrz (b ∷ bs) s =
    let (rc, s') = svc_conputc b s in let rest = putstrz bs s' in if rc == 0 then rest else (rc, s')

unfoldable pub putstrzl : List ℕ → Console → ℕ × Console
putstrzl bs s = let (rc, s') = putstrz bs s in if rc == 0 then putstr crlf s' else (rc, s')

unfoldable pub putc : (c : ℕ) → Console → ℕ × Console
putc c s = if c == b'\n' then svc_conputc c (svc_conputc b'\r' s).1 else svc_conputc c s

-- `n` counts what was sent, in time or not.
unfoldable pub puts_from : List ℕ → (n : ℕ) → Console → ℕ × Console
puts_from [] n s = (n, s)
puts_from (c ∷ cs) n s =
    let line = puts_from cs ((n + 2) % 2 ^ 16) (putstr (b'\n' ∷ b'\r' ∷ []) s).1 in
    let rest = puts_from cs ((n + 1) % 2 ^ 16) (svc_conputc c s).1 in
    if c == b'\n' then line else rest

unfoldable pub puts : List ℕ → Console → ℕ × Console
puts cs s = puts_from cs 0 s

-- With a device that is always ready, all bytes are sent.
pub putstr-Sends : (bs : List ℕ) (s : Console) → Answers s → Sends s bs (putstr bs s)
unfolding putstr
putstr-Sends [] s a = record { code = refl; out = sym (append-nil s.out); still = refl }
putstr-Sends (b ∷ bs) s a =
    let first = kconputc-Sends b s a in
    let rest = putstr-Sends bs (kconputc b s).1 (λ i. rw first.still (a i)) in
    let on : ((kconputc b s).0 == 0) ≡ true = ground (arith, first.code) in
    rw on (record {
      code = rest.code;
      out = rest.out ∙ ap (λ o. o ++ low_bytes bs) first.out ∙ append_assoc s.out _ _;
      still = rest.still ∙ first.still;
    })

-- Each newline with a carriage return behind.
abbrev pub lines : List ℕ → List ℕ
lines [] = []
lines (c ∷ cs) = if c == b'\n' then b'\n' ∷ b'\r' ∷ lines cs else c ∷ lines cs

puts_from-lines :
    (cs : List ℕ) (n : ℕ) (s : Console)
    → Answers s
    → n + length (lines cs) < 65536
    → ((puts_from cs n s).0 ≡ n + length (lines cs))
      × ((puts_from cs n s).1.out ≡ s.out ++ low_bytes (lines cs))
unfolding puts_from
puts_from-lines [] n s a lt = (omega arith, sym (append-nil s.out))
puts_from-lines (c ∷ cs) n s a lt = elim (Bool-cases (c == b'\n')) [
  | inl ends ↦
      let sent = putstr-Sends (b'\n' ∷ b'\r' ∷ []) s a in
      let s1 : Console = (putstr (b'\n' ∷ b'\r' ∷ []) s).1 in
      let fits : n + 2 + length (lines cs) < 65536 = ground (arith, lt, ends) in
      let two : (n + 2) % 2 ^ 16 ≡ n + 2 = omega (arith, fits) in
      let (count, out) = puts_from-lines cs (n + 2) s1 (λ i. rw sent.still (a i)) fits in
      rw (ends, two)
        (
          ground (arith, count),
          out ∙ ap (λ o. o ++ low_bytes (lines cs)) sent.out ∙ append_assoc s.out _ _,
        )
  | inr within ↦
      let sent = kconputc-Sends c s a in
      let s1 : Console = (svc_conputc c s).1 in
      let fits : n + 1 + length (lines cs) < 65536 = ground (arith, lt, within) in
      let one : (n + 1) % 2 ^ 16 ≡ n + 1 = omega (arith, fits) in
      let (count, out) = puts_from-lines cs (n + 1) s1 (λ i. rw sent.still (a i)) fits in
      rw (within, one)
        (
          ground (arith, count),
          out ∙ ap (λ o. o ++ low_bytes (lines cs)) sent.out ∙ append_assoc s.out _ _,
        )
]

-- With a device that is always ready, `puts` sends the text with a carriage return behind each
-- newline and returns the number of bytes, if that is a word.
pub puts-lines :
    (cs : List ℕ) (s : Console)
    → Answers s
    → length (lines cs) < 65536
    → ((puts cs s).0 ≡ length (lines cs)) × ((puts cs s).1.out ≡ s.out ++ low_bytes (lines cs))
unfolding puts
puts-lines cs s a lt =
    let (count, out) = puts_from-lines cs 0 s a (omega (arith, lt)) in (omega (arith, count), out)
