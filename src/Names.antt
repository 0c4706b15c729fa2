-- ===== src/Names.antt =====
-- `check_name` of src/durastream/utils.py, and `Store._path` of src/durastream/store.py: which names a
-- stream may have, and the file that its log is kept in.
use durastream.Common.{
  ℕ, ◌+◌, ◌≡◌, ◌≢◌, refl, sym, ap, ◌∙◌, Bool, true, false, not, ◌&&◌, ◌||◌, [], ◌∷◌, ◌++◌, map,
  append_assoc, Text, codes, leb, ◌==◌, last_or, if◌then◌else◌, if-false, arith,
}
use mathlib.Core.List.{map-append, append_cancel_left, append_cancel_right}
use durastream.Errors.{Result, ok, err, value_error}

-- the class [a-z0-9._-]
unfoldable pub is_name_char : ℕ → Bool
is_name_char c =
    (leb b'a' c && leb c b'z') || (leb b'0' c && leb c b'9') || c == b'.' || c == b'_' || c == b'-'

unfoldable pub all_name_chars : Text → Bool
unfolding is_name_char
all_name_chars [] = true
all_name_chars (c ∷ name) = is_name_char c && all_name_chars name

-- a full match of [a-z0-9._-]+
unfoldable pub matches_name : Text → Bool
unfolding all_name_chars
matches_name [] = false
matches_name (c ∷ name) = all_name_chars (c ∷ name)

unfoldable pub check_name : Text → Result Text
unfolding matches_name
check_name name = if not (matches_name name) then err value_error else ok name

abbrev slash : ℕ
slash = b'/'

-- `os.path.join(a, b)` of a directory and a file name
unfoldable pub path_join : Text → Text → Text
path_join a [] = if last_or a slash == slash then a else a ++ slash ∷ []
path_join a (c ∷ b) =
    if c == slash
    then c ∷ b
    else if last_or a slash == slash
    then a ++ c ∷ b
    else a ++ slash ∷ c ∷ b

unfoldable pub log_path : Text → Text → Text
unfolding path_join
log_path streams_dir name = path_join streams_dir (name ++ codes ".log")

-- The folding of letters by a file system that does not tell upper and lower case apart.
abbrev fold_case : ℕ → ℕ
fold_case c = if leb b'A' c && leb c b'Z' then c + 32 else c

abbrev IsNamed : Text → Type 0
IsNamed name = check_name name ≡ ok name

matches_of : (name : Text) → IsNamed name → matches_name name ≡ true
unfolding check_name
matches_of name h = ground arith

fold-name_char : (c : ℕ) → is_name_char c ≡ true → fold_case c ≡ c
unfolding is_name_char
fold-name_char c h = ground arith

fold-name : (name : Text) → all_name_chars name ≡ true → map fold_case name ≡ name
unfolding all_name_chars
fold-name [] h = refl
fold-name (c ∷ name) h = λ i. fold-name_char c (first h) i ∷ fold-name name (second h) i
  where
    first : is_name_char c && all_name_chars name ≡ true → is_name_char c ≡ true
    first = ground arith

    second : is_name_char c && all_name_chars name ≡ true → all_name_chars name ≡ true
    second = ground arith

not_slash : (c : ℕ) → is_name_char c ≡ true → (c == slash) ≡ false
unfolding is_name_char
not_slash c h = ground arith

-- the directory of logs, as it stands in a path
abbrev pub directory : Text → Text
directory dir = if last_or dir slash == slash then dir else dir ++ slash ∷ []

log_path-directory :
    (dir name : Text)
    → matches_name name ≡ true
    → log_path dir name ≡ directory dir ++ (name ++ codes ".log")
unfolding log_path matches_name
log_path-directory dir [] h = cc
log_path-directory dir (c ∷ name) h =
    if-false _ _ (not_slash c (first (is_name_char c) (all_name_chars name) h))
    ∙ split (last_or dir slash == slash)
  where
    first : (a b : Bool) → a && b ≡ true → a ≡ true
    first a b = ground arith

    split :
        (b : Bool)
        → (if b
            then dir ++ c ∷ (name ++ codes ".log")
            else dir ++ slash ∷ c ∷ (name ++ codes ".log"))
          ≡ (if b then dir else dir ++ slash ∷ []) ++ c ∷ (name ++ codes ".log")
    split true = refl
    split false = sym (append_assoc dir (slash ∷ []) (c ∷ (name ++ codes ".log")))

matches→all : (name : Text) → matches_name name ≡ true → all_name_chars name ≡ true
unfolding matches_name
matches→all [] h = cc
matches→all (c ∷ name) h = h

fold-log_path :
    (dir name : Text)
    → matches_name name ≡ true
    → map fold_case (log_path dir name)
      ≡ map fold_case (directory dir) ++ (name ++ map fold_case (codes ".log"))
fold-log_path dir name h =
    ap (map fold_case) (log_path-directory dir name h)
    ∙ map-append fold_case (directory dir) (name ++ codes ".log")
    ∙ ap (λ t. map fold_case (directory dir) ++ t)
        (map-append fold_case name (codes ".log")
          ∙ ap (λ t. t ++ map fold_case (codes ".log")) (fold-name name (matches→all name h)))

-- Two accepted names never share a log file, even where the file system folds letters A to Z to lower
-- case.
pub log_path-injective :
    (dir a b : Text)
    → check_name a ≡ ok a
    → check_name b ≡ ok b
    → map fold_case (log_path dir a) ≡ map fold_case (log_path dir b)
    → a ≡ b
log_path-injective dir a b ha hb e = append_cancel_right a b (map fold_case (codes ".log")) (
    append_cancel_left (map fold_case (directory dir)) _ _
      (sym (fold-log_path dir a (matches_of a ha)) ∙ e ∙ fold-log_path dir b (matches_of b hb)))

-- no slash in a text
abbrev pub NoSlash : Text → Type 0
NoSlash [] = Unit
NoSlash (c ∷ t) = (c ≢ slash) × NoSlash t

NoSlash-name :
    (name rest : Text) → all_name_chars name ≡ true → NoSlash rest → NoSlash (name ++ rest)
unfolding all_name_chars is_name_char
NoSlash-name [] rest h k = k
NoSlash-name (c ∷ name) rest h k = (ground arith, NoSlash-name name rest (ground arith) k)

-- The log of an accepted name lies in the directory of logs itself: its path is the directory and a
-- file name without a slash.
pub log_path-inside :
    (dir name : Text)
    → check_name name ≡ ok name
    → (log_path dir name ≡ directory dir ++ (name ++ codes ".log")) × NoSlash (name ++ codes ".log")
log_path-inside dir name h = (
  log_path-directory dir name (matches_of name h),
  NoSlash-name name (codes ".log") (matches→all name (matches_of name h)) (omega arith),
)
