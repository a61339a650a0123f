-- ===== src/Apps/Text.antt =====
-- What apps/test_fs.c does with text: the lines of a script, their parts, and numbers in them.
use ecs150_project.Fs.Names.{CString}
use ecs150_project.Prelude.{
  ℕ, zero, suc, ◌+◌, ◌-◌, ◌*◌, Bool, true, false, ◌&&◌, ◌||◌, List, [], ◌∷◌, leb, ℤ, negsuc, pos,
  ◌==◌, if◌then◌else◌,
}
use Prim.Native.Char.{code}
use Prim.Native.String.{String}

-- the bytes of a literal
abbrev pub literal : String → CString
literal String.[] = []
literal (String.◌∷◌ c s) = code c ∷ literal s

-- `strcmp(a, b) == 0`
abbrev pub same_text : CString → CString → Bool
same_text [] [] = true
same_text [] (_ ∷ _) = false
same_text (_ ∷ _) [] = false
same_text (a ∷ xs) (b ∷ ys) = a == b && same_text xs ys

-- a line without its first newline and what is behind it
abbrev pub cut_newline : CString → CString
cut_newline [] = []
cut_newline (c ∷ cs) = let rest = cut_newline cs in if c == b'\n' then [] else c ∷ rest

-- `strtok` never returns an empty part.
abbrev pub add_part : CString → List CString → List CString
add_part [] parts = parts
add_part (c ∷ cs) parts = (c ∷ cs) ∷ parts

-- The part that begins here, up to a tab, and the parts behind it.
unfoldable pub split_tabs : CString → CString × List CString
split_tabs [] = ([], [])
split_tabs (c ∷ cs) =
    let (part, parts) = split_tabs cs in
    if c == b'\t' then ([], add_part part parts) else (c ∷ part, parts)

-- What `strtok(line, "\t")` and then `strtok(NULL, "\t")` return until it is NULL.
unfoldable pub strtok_all : CString → List CString
unfolding split_tabs
strtok_all line = let (part, parts) = split_tabs line in add_part part parts

abbrev pub first_parts : ℕ → List CString → List CString
first_parts zero parts = []
first_parts (suc n) [] = []
first_parts (suc n) (part ∷ parts) = part ∷ first_parts n parts

-- What the loop of `thread_fs_script` puts into the 4 entries of `command_args`.
abbrev pub command_parts : CString → List CString
command_parts line = first_parts 4 (strtok_all line)

abbrev add_front : ℕ → List CString → List CString
add_front c [] = (c ∷ []) ∷ []
add_front c (line ∷ lines) = (c ∷ line) ∷ lines

-- The line that `fgets` goes on to read when its buffer has room for `room` more bytes, and the lines
-- behind it.
unfoldable pub fgets_from : ℕ → CString → List CString
fgets_from room [] = []
fgets_from room (c ∷ cs) =
    let next = fgets_from 1023 cs in
    let same = fgets_from (room - 1) cs in
    if c == b'\n' || room == 1 then (c ∷ []) ∷ next else add_front c same

-- What `fgets(line_buffer, 1024, fd_script)` returns one time after the other, for a script without NUL.
unfoldable pub fgets_lines : CString → List CString
unfolding fgets_from
fgets_lines script = fgets_from 1023 script

-- the digits at the front, onto `n`
abbrev pub digits_from : ℕ → CString → ℕ
digits_from n [] = n
digits_from n (c ∷ cs) =
    let rest = digits_from (10 * n + (c - b'0')) cs in if leb b'0' c && leb c b'9' then rest else n

abbrev pub negate : ℕ → ℤ
negate zero = pos 0
negate (suc n) = negsuc n

abbrev pub signed : CString → ℤ
signed [] = pos 0
signed (c ∷ cs) =
    if c == b'-'
    then negate (digits_from 0 cs)
    else if c == b'+'
    then pos (digits_from 0 cs)
    else pos (digits_from 0 (c ∷ cs))

abbrev is_space : ℕ → Bool
is_space c = c == b' ' || (leb 9 c && leb c 13)

-- `atoi`, for a number that fits into an `int`
unfoldable pub atoi : CString → ℤ
atoi [] = pos 0
atoi (c ∷ cs) = let rest = atoi cs in if is_space c then rest else signed (c ∷ cs)
