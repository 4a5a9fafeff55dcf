-- ===== src/Sshexec.antt =====
-- internal/sshexec/client.go: `shellEscape` and `Quote`. Texts are bytes.
pub mod Words
use controlplane.Prelude.{
  is_empty, ℕ, Bool, true, false, not, ◌&&◌, ◌||◌, List, [], ◌∷◌, ◌++◌, Text, codes, leb, ◌==◌,
  if◌then◌else◌,
}

abbrev pub single_quote : ℕ
single_quote = 39

abbrev pub backslash : ℕ
backslash = 92

-- `strings.ReplaceAll(s, "'", "'\\''")`
unfoldable pub shell_escape : Text → Text
shell_escape [] = []
shell_escape (c ∷ s) =
    let rest = shell_escape s in
    if c == single_quote
    then single_quote ∷ backslash ∷ single_quote ∷ single_quote ∷ rest
    else c ∷ rest

abbrev pub is_between : ℕ → ℕ → ℕ → Bool
is_between low high c = leb low c && leb c high

pub is_one_of : ℕ → Text → Bool
is_one_of c [] = false
is_one_of c (d ∷ s) = c == d || is_one_of c s

-- `[A-Za-z0-9_@%+=:,./-]`
unfoldable pub is_safe : ℕ → Bool
unfolding is_one_of
is_safe c =
    is_between 65 90 c
    || is_between 97 122 c
    || is_between 48 57 c
    || is_one_of c (codes "_@%+=:,./-")

unfoldable pub all_safe : Text → Bool
unfolding is_safe
all_safe [] = true
all_safe (c ∷ s) = is_safe c && all_safe s

abbrev pub shell_safe : Text → Bool
shell_safe s = not (is_empty s) && all_safe s

unfoldable pub quote : Text → Text
unfolding shell_escape all_safe
quote s = if shell_safe s then s else single_quote ∷ shell_escape s ++ single_quote ∷ []
