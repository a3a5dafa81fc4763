-- ===== src/Http/Shell.antt =====
-- The command line that `http_get` of src/http_client.c builds, as a shell reads it.
use openwrt_edge_agent.Base.{
  ℕ, ◌≤◌, ◌<◌, ◌≡◌, All, codes, ◌⊎◌, true, false, ◌||◌, [], ◌∷◌, ◌++◌, Option, none, some, ◌==◌,
  Bytes, length,
}
use openwrt_edge_agent.Http.Get.{Command, get_command, http_get, command_head, command_tail}

-- What a shell makes of text inside double quotes: the word up to the closing quote and what
-- follows, where the text has nothing that the shell expands there (a dollar sign, a backquote, a
-- backslash or an exclamation mark).
unfoldable pub quoted_word : Bytes → Option (Bytes × Bytes)
quoted_word [] = none
quoted_word (c ∷ cs) = elim (c == b'"') [
  | true ↦ some ([], cs)
  | false ↦ elim (c == b'$' || (c == b'`' || (c == b'\\' || c == b'!'))) [
    | true ↦ none
    | false ↦ elim (quoted_word cs) [ none ↦ none | some (word, rest) ↦ some (c ∷ word, rest) ]
  ]
]

-- A byte of a text.
abbrev OneOf : ℕ → Bytes → Type 0
OneOf c [] = ⊥
OneOf c (b ∷ bs) = (c ≡ b) ⊎ OneOf c bs

-- The bytes that a URL may have: letters, digits, and `:/._-~?=&%`.
abbrev pub Allowed : ℕ → Type 0
Allowed c =
    ((97 ≤ c) × (c ≤ 122))
    ⊎ (((65 ≤ c) × (c ≤ 90)) ⊎ (((48 ≤ c) × (c ≤ 57)) ⊎ OneOf c (codes ":/._-~?=&%")))

abbrev pub command_for : Bytes → Bytes
command_for url = command_head ++ (url ++ (b'"' ∷ command_tail))

-- No command, and no response, for a URL that is not allowed or too long.
abbrev pub Refuses : (Bytes → Command) → Bytes → ℕ → Type 0
Refuses shell url resp_size =
    (get_command url ≡ none)
    × (http_get shell url resp_size ≡ none)
    × ((¬ All Allowed url) ⊎ (512 ≤ length (command_for url)))

-- One command, the only one that the response depends on, in which the URL is one word.
abbrev pub RunsOne : (Bytes → Command) → Bytes → ℕ → Type 0
RunsOne shell url resp_size =
    All Allowed url
    × (length (command_for url) < 512)
    × (get_command url ≡ some (command_for url))
    × (http_get shell url resp_size ≡ http_get (λ _. shell (command_for url)) url resp_size)
    × (quoted_word (url ++ (b'"' ∷ command_tail)) ≡ some (url, command_tail))
