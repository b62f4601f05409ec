-- ===== src/Linux/Maps.antt =====
-- `proc_memory_maps` and `group_memory_maps` of pypsutil/_pslinux.py, and `memory_maps_grouped` of
-- pypsutil/_process.py. The lines of the "smaps" file are an argument, `os.makedev` a parameter.
pub mod Totals
use pypsutil.Prelude.{
  ℕ, zero, suc, ◌+◌, ◌*◌, ◌-◌, Bool, true, false, ◌&&◌, ◌||◌, Option, none, some, List, [], ◌∷◌,
  ◌++◌, ◌==◌, leb, if◌then◌else◌, take, drop, length, keep, any, map,
}
use pypsutil.Prelude.Exn.{Exn, Result, ok, err, ◌>>=◌}
use pypsutil.Prelude.Text.{
  Text, codes, put, is_space, lstrip, strip, parse_int, text_eq, ends_with, cut_at,
}
use pypsutil.Linux.Stat.{or_value_error}
use pypsutil.Linux.Status.{rstrip_newlines}

-- The values of `_SMAPS_SIZE_NAMES`, which are the names that `group_memory_maps` goes through.
pub data SizeName : Type 0 where
  size rss pss shared_clean shared_dirty private_clean private_dirty referenced anonymous swap :
      SizeName

abbrev pub same_name : SizeName → SizeName → Bool
same_name size size = true
same_name rss rss = true
same_name pss pss = true
same_name shared_clean shared_clean = true
same_name shared_dirty shared_dirty = true
same_name private_clean private_clean = true
same_name private_dirty private_dirty = true
same_name referenced referenced = true
same_name anonymous anonymous = true
same_name swap swap = true
same_name _ _ = false

-- `_SMAPS_SIZE_NAMES`
smaps_size_names : Text → Option SizeName
smaps_size_names key =
    if text_eq key (codes "Size")
    then some size
    else if text_eq key (codes "Rss")
    then some rss
    else if text_eq key (codes "Pss")
    then some pss
    else if text_eq key (codes "Shared_Clean")
    then some shared_clean
    else if text_eq key (codes "Shared_Dirty")
    then some shared_dirty
    else if text_eq key (codes "Private_Clean")
    then some private_clean
    else if text_eq key (codes "Private_Dirty")
    then some private_dirty
    else if text_eq key (codes "Referenced")
    then some referenced
    else if text_eq key (codes "Anonymous")
    then some anonymous
    else if text_eq key (codes "Swap")
    then some swap
    else none

-- The ten fields with sizes are one function of their names.
pub record ProcessMemoryMap : Type 0 where
  pub path : Text
  pub addr_start : ℕ
  pub addr_end : ℕ
  pub perms : Text
  pub offset : ℕ
  pub dev : ℕ
  pub ino : ℕ
  pub sizes : SizeName → ℕ

pub record ProcessMemoryMapGrouped : Type 0 where
  pub path : Text
  pub dev : ℕ
  pub ino : ℕ
  pub sizes : SizeName → ℕ

-- The first word of a text without white space in front, and the rest.
next_word : Text → Text × Text
next_word [] = ([], [])
next_word (c ∷ s) = elim (is_space c) [
  | true ↦ ([], c ∷ s)
  | false ↦ let (w, rest) = next_word s in (c ∷ w, rest)
]

-- `s.split(maxsplit=n)`
unfoldable pub split_max : ℕ → Text → List Text
unfolding next_word
split_max zero s = elim (lstrip s) [ [] ↦ [] | c ∷ t ↦ (c ∷ t) ∷ [] ]
split_max (suc n) s =
    let (w, rest) = next_word (lstrip s) in
    let others = split_max n rest in elim w [ [] ↦ [] | c ∷ t ↦ (c ∷ t) ∷ others ]

-- `a, b = line.split(c)`
unfoldable pub two_parts : ℕ → Text → Result (Text × Text)
two_parts c line = do
  (a, b) ← or_value_error (cut_at c line)
  elim (cut_at c b) [ none ↦ ok (a, b) | some _ ↦ err Exn.value_error ]

abbrev pub hex : Text → Result ℕ
hex t = or_value_error (parse_int 16 t)

-- `a, b = (int(part, 16) for part in text.split(c))`
unfoldable pub two_hex : ℕ → Text → Result (ℕ × ℕ)
unfolding two_parts
two_hex c text = do (a, b) ← two_parts c text; m ← hex a; n ← hex b; ok (m, n)

module _ (makedev : ℕ → ℕ → ℕ) where
  -- The words of a line that starts a mapping.
  mapping : List Text → Result ProcessMemoryMap
  unfolding two_hex
  mapping (addr ∷ perms ∷ offset ∷ dev ∷ ino ∷ maybe_path) = do
    (addr_start, addr_end) ← two_hex 45 addr
    (dev_major, dev_minor) ← two_hex 58 dev
    offset' ← hex offset
    ino' ← or_value_error (parse_int 10 ino)
    ok (record {
      path = elim maybe_path [ [] ↦ codes "[anon]" | p ∷ _ ↦ p ];
      addr_start = addr_start;
      addr_end = addr_end;
      perms = perms;
      offset = offset';
      dev = makedev dev_major dev_minor;
      ino = ino';
      sizes = λ _. 0;
    })
  mapping _ = err Exn.value_error

  abbrev set_size : SizeName → ℕ → ProcessMemoryMap → ProcessMemoryMap
  set_size name n m = record m {
    sizes = λ other. if same_name name other then n else m.sizes other;
  }

  -- `setattr(maps[-1], name, int(text) * 1024)`
  set_last : SizeName → Text → List ProcessMemoryMap → Result (List ProcessMemoryMap)
  set_last name text [] = err Exn.index_error
  set_last name text (m ∷ []) = do
    n ← or_value_error (parse_int 10 text)
    ok (set_size name (n * 1024) m ∷ [])
  set_last name text (m ∷ k ∷ maps) = do rest ← set_last name text (k ∷ maps); ok (m ∷ rest)

  abbrev is_hex_digit : ℕ → Bool
  is_hex_digit c = (leb 48 c && leb c 57) || (leb 97 c && leb c 102)

  -- A line "key: value".
  size_line : Text × Text → List ProcessMemoryMap → Result (List ProcessMemoryMap)
  unfolding smaps_size_names set_last
  size_line (key, value) maps = elim (smaps_size_names (strip key)) [
    | none ↦ ok maps
    | some name ↦
        if ends_with (strip value) (codes " kB")
        then set_last name (take (length (strip value) - 3) (strip value)) maps
        else ok maps
  ]

  -- One line of the file.
  smaps_line : Text → List ProcessMemoryMap → Result (List ProcessMemoryMap)
  unfolding mapping split_max size_line
  smaps_line [] maps = err Exn.index_error
  smaps_line (c ∷ line) maps = elim (is_hex_digit c) [
    | true ↦ do m ← mapping (split_max 5 (c ∷ line)); ok (maps ++ (m ∷ []))
    | false ↦ do parts ← two_parts 58 (c ∷ line); size_line parts maps
  ]

  unfoldable pub smaps_lines : List Text → List ProcessMemoryMap → Result (List ProcessMemoryMap)
  unfolding smaps_line
  smaps_lines [] maps = ok maps
  smaps_lines (line ∷ lines) maps = do
    maps' ← smaps_line (rstrip_newlines line) maps
    smaps_lines lines maps'

  -- `proc_memory_maps`, once the file is open.
  abbrev pub proc_memory_maps : List Text → Result (List ProcessMemoryMap)
  proc_memory_maps lines = smaps_lines lines []

abbrev pub sum_of : {A : Type 0} → (A → ℕ) → List A → ℕ
sum_of f [] = 0
sum_of f (x ∷ xs) = f x + sum_of f xs

-- IndexError on an empty list: `maps[0]`.
unfoldable pub group_memory_maps : List ProcessMemoryMap → Result ProcessMemoryMapGrouped
group_memory_maps [] = err Exn.index_error
group_memory_maps (m ∷ maps) = ok (record {
  path = m.path;
  dev = m.dev;
  ino = m.ino;
  sizes = λ name. sum_of (λ (k : ProcessMemoryMap). k.sizes name) (m ∷ maps);
})

-- `{…}` of texts: every one once; the order is not that of Python.
abbrev pub set_of : List Text → List Text
set_of [] = []
set_of (p ∷ ps) = let rest = set_of ps in if any (text_eq p) ps then rest else p ∷ rest

unfoldable pub group_each :
    List Text → List ProcessMemoryMap → Result (List ProcessMemoryMapGrouped)
unfolding group_memory_maps
group_each [] maps = ok []
group_each (path ∷ paths) maps = do
  g ← group_memory_maps (keep (λ (m : ProcessMemoryMap). text_eq path m.path) maps)
  gs ← group_each paths maps
  ok (g ∷ gs)

unfoldable pub memory_maps_grouped : List ProcessMemoryMap → Result (List ProcessMemoryMapGrouped)
unfolding group_each
memory_maps_grouped maps = group_each (set_of (map (λ (m : ProcessMemoryMap). m.path) maps)) maps
