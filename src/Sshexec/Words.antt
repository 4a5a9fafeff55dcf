-- ===== src/Sshexec/Words.antt =====
-- `Quote` against a reader of shell words: how a POSIX shell splits off the first word of a command.
use controlplane.Prelude.{
  is_empty, ℕ, Bool, true, false, not, ◌≡◌, refl, ◌∙◌, sym, ap, ◌&&◌, Option, none, some, [], ◌∷◌,
  ◌++◌, Text, codes, ◌||◌, ◌==◌, ==_iff, if◌then◌else◌, arith, Bool-cases, inl, inr,
}
use mathlib.Core.Bool.{false≢true}
use mathlib.Core.List.{append_assoc, append-nil}
use controlplane.Sshexec.{
  single_quote, backslash, shell_escape, is_safe, all_safe, shell_safe, quote,
}

pub data Mode : Type 0 where
  bare quoted escaped : Mode

-- The bytes that POSIX reserves outside quotes (Shell Command Language, 2.2 Quoting): blanks, operators,
-- expansions, quotes and patterns, and those that only some shells reserve. `=` and `%` have a meaning
-- only where a command begins.
abbrev metacharacters : Text
metacharacters = 9 ∷ 10 ∷ 13 ∷ 32 ∷ codes "|&;<>()$`\\\"'*?[]!{}#~^"

is_in : ℕ → Text → Bool
is_in c [] = false
is_in c (k ∷ ks) = c == k || is_in c ks

-- The word, and what follows it. Bare, a quote opens, a backslash takes the next byte as it is, a
-- space ends the word, and at any other byte with a meaning of its own the reader gives up; the rest stand
-- for themselves. In quotes every byte but the quote stands for itself.
pub read : Mode → Text → Text → Option (Text × Text)
unfolding is_in
read bare [] out = some (out, [])
read bare (c ∷ s) out =
    let opened = read quoted s out in
    let skipped = read escaped s out in
    let copied = read bare s (out ++ c ∷ []) in
    if c == single_quote
    then opened
    else if c == backslash
    then skipped
    else if c == 32
    then some (out, c ∷ s)
    else if is_in c metacharacters
    then none
    else copied
read quoted [] out = none
read quoted (c ∷ s) out =
    let closed = read bare s out in
    let copied = read quoted s (out ++ c ∷ []) in if c == single_quote then closed else copied
read escaped [] out = none
read escaped (c ∷ s) out = read bare s (out ++ c ∷ [])

pub read_word : Text → Option (Text × Text)
unfolding read
read_word s = read bare s []

-- A word can end here.
abbrev pub ends_word : Text → Bool
ends_word [] = true
ends_word (c ∷ s) = c == 32

read-end : (rest out : Text) → ends_word rest ≡ true → read bare rest out ≡ some (out, rest)
unfolding read
read-end [] out h = refl
read-end (c ∷ s) out h = ground (arith, h)

snoc-append : (out : Text) (c : ℕ) (s : Text) → (out ++ c ∷ []) ++ s ≡ out ++ c ∷ s
snoc-append out c s = append_assoc out (c ∷ []) s

read-escape :
    (s rest out : Text)
    → read quoted (shell_escape s ++ single_quote ∷ rest) out ≡ read bare rest (out ++ s)
unfolding read shell_escape
read-escape [] rest out = ap (read bare rest) (sym (append-nil out))
read-escape (c ∷ s) rest out = elim (Bool-cases (c == single_quote)) [
  | inl e ↦ rw e (
      read-escape s rest (out ++ single_quote ∷ [])
      ∙ ap (read bare rest) (
          snoc-append out single_quote s
          ∙ ap (λ d. out ++ d ∷ s) (sym ((==_iff c single_quote).0 e))))
  | inr e ↦
      rw e (rw e (read-escape s rest (out ++ c ∷ []) ∙ ap (read bare rest) (snoc-append out c s)))
]

-- A byte with a meaning of its own is not safe.
safe-apart : (c k : ℕ) → is_safe k ≡ false → is_safe c ≡ true → (c == k) ≡ false
safe-apart c k unsafe h = elim (Bool-cases (c == k)) [
  | inl e ↦ absurd (false≢true (sym unsafe ∙ ap is_safe (sym ((==_iff c k).0 e)) ∙ h))
  | inr e ↦ e
]

and-left : (a b : Bool) → (a && b) ≡ true → a ≡ true
and-left true b h = refl
and-left false b h = h

and-right : (a b : Bool) → (a && b) ≡ true → b ≡ true
and-right true b h = h
and-right false b h = absurd (false≢true h)

all_unsafe : Text → Bool
all_unsafe [] = true
all_unsafe (k ∷ ks) = not (is_safe k) && all_unsafe ks

not-false : (b : Bool) → not b ≡ true → b ≡ false
not-false true h = sym h
not-false false h = refl

-- No safe byte is one of a list of bytes that are not safe.
is_safe-is_in : (c : ℕ) (ks : Text) → all_unsafe ks ≡ true → is_safe c ≡ true → is_in c ks ≡ false
unfolding is_in all_unsafe
is_safe-is_in c [] h safe = refl
is_safe-is_in c (k ∷ ks) h safe =
    rw (safe-apart c k (not-false (is_safe k) (and-left (not (is_safe k)) (all_unsafe ks) h)) safe)
      (is_safe-is_in c ks (and-right (not (is_safe k)) (all_unsafe ks) h) safe)

unsafe : (k : ℕ) → not (is_safe k) ≡ true → is_safe k ≡ false
unsafe k h = not-false (is_safe k) h

metacharacters_unsafe : all_unsafe metacharacters ≡ true
unfolding all_unsafe is_safe
metacharacters_unsafe = refl

read-safe :
    (s rest out : Text) → all_safe s ≡ true → read bare (s ++ rest) out ≡ read bare rest (out ++ s)
unfolding read all_safe
read-safe [] rest out h = ap (read bare rest) (sym (append-nil out))
read-safe (c ∷ s) rest out h =
    let safe = and-left (is_safe c) (all_safe s) h in
    rw
      (
        is_safe-is_in c metacharacters metacharacters_unsafe safe,
        safe-apart c single_quote (unsafe single_quote refl) safe,
        safe-apart c backslash (unsafe backslash refl) safe,
        safe-apart c 32 (unsafe 32 refl) safe,
      )
      (read-safe s rest (out ++ c ∷ []) (and-right (is_safe c) (all_safe s) h)
        ∙ ap (read bare rest) (snoc-append out c s))

-- A quoted value is one word of the command, the value itself, wherever the command goes on at the
-- end of a word.
pub read_word-quote :
    (s rest : Text) → ends_word rest ≡ true → read_word (quote s ++ rest) ≡ some (s, rest)
unfolding read_word quote read
read_word-quote s rest h = elim (Bool-cases (shell_safe s)) [
  | inl e ↦
      rw e (read-safe s rest [] (and-right (not (is_empty s)) (all_safe s) e) ∙ read-end rest s h)
  | inr e ↦ rw e (
      ap (λ t. read quoted t []) (append_assoc (shell_escape s) (single_quote ∷ []) rest)
      ∙ read-escape s rest []
      ∙ read-end rest s h)
]
