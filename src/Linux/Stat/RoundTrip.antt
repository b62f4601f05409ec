-- ===== src/Linux/Stat/RoundTrip.antt =====
-- The fields of a `/proc/<pid>/stat` line are those that the kernel has put there.
use mathlib.Core.Bool.{false≢true}
use pypsutil.Prelude.{
  ℕ, suc, ◌+◌, ◌-◌, ◌≡◌, ◌≢◌, refl, sym, ◌∙◌, true, false, none, some, List, [], ◌∷◌, ◌++◌,
  append_assoc, append-nil, arith, ==_refl, take, drop, length, length-append, is_empty, All,
  All-append,
}
use pypsutil.Prelude.Exn.{ok}
use pypsutil.Prelude.Text.{Text, Lacks, split, is_space, split_from, word}
use pypsutil.Linux.Stat.{index, rindex, parse_procfs_stat_fields}

index-append : (c : ℕ) (a b : Text) → Lacks c a → index c (a ++ c ∷ b) ≡ some (length a)
unfolding index
index-append c [] b h = ground (arith, ==_refl c)
index-append c (d ∷ a) b (hd, h) = ground (arith, index-append c a b h)

rindex-absent : (c : ℕ) (b : Text) → Lacks c b → rindex c b ≡ none
unfolding rindex
rindex-absent c [] h = refl
rindex-absent c (d ∷ b) (hd, h) = ground (arith, rindex-absent c b h)

rindex-append : (c : ℕ) (a b : Text) → Lacks c b → rindex c (a ++ c ∷ b) ≡ some (length a)
unfolding rindex
rindex-append c [] b h = ground (arith, ==_refl c, rindex-absent c b h)
rindex-append c (d ∷ a) b h = rw (rindex-append c a b h)

take-append : (a b : Text) → take (length a) (a ++ b) ≡ a
take-append [] b = refl
take-append (c ∷ a) b = rw (take-append a b)

drop-append : (a b : Text) (c : ℕ) → drop (length a + 1) (a ++ c ∷ b) ≡ b
drop-append [] b c = refl
drop-append (d ∷ a) b c =
    let next : suc (length a) + 1 ≡ suc (length a + 1) = omega arith in rw next (drop-append a b c)

-- The line in front of the first opening parenthesis, the text up to the last closing one and the
-- text behind it: the first and the last give their words, the middle is one field as it stands. So
-- a name with spaces or parentheses is one field.
pub parse_procfs_stat_fields-parts :
    (front name rest : Text)
    → Lacks 40 front
    → Lacks 41 rest
    → parse_procfs_stat_fields (front ++ 40 ∷ (name ++ 41 ∷ rest))
      ≡ ok (split front ++ name ∷ split rest)
unfolding parse_procfs_stat_fields
parse_procfs_stat_fields-parts front name rest h g =
    let line = front ++ 40 ∷ (name ++ 41 ∷ rest) in
    let whole : (front ++ 40 ∷ name) ++ 41 ∷ rest ≡ line =
      append_assoc front (40 ∷ name) (41 ∷ rest) in
    let last : rindex 41 line ≡ some (length (front ++ 40 ∷ name)) =
      rw whole at (rindex-append 41 (front ++ 40 ∷ name) rest g) in
    let behind : drop (length (front ++ 40 ∷ name) + 1) line ≡ rest =
      rw whole at (drop-append (front ++ 40 ∷ name) rest 41) in
    let width : length (front ++ 40 ∷ name) - (length front + 1) ≡ length name =
      omega (arith, length-append front (40 ∷ name)) in
    rw (
      index-append 40 front (name ++ 41 ∷ rest) h,
      last,
      behind,
      take-append front (40 ∷ (name ++ 41 ∷ rest)),
      drop-append front (name ++ 41 ∷ rest) 40,
      width,
      take-append name (41 ∷ rest),
    )

-- A word for `split`: not empty and without white space.
abbrev pub IsWord : Text → Type 0
IsWord w = (is_empty w ≡ false) × All (λ c. is_space c ≡ false) w

-- Words with a separator in front of each.
abbrev pub spaced : ℕ → List Text → Text
spaced sep [] = []
spaced sep (w ∷ ws) = sep ∷ (w ++ spaced sep ws)

pub split_from-word :
    (w s acc : Text)
    → All (λ c. is_space c ≡ false) w
    → split_from (w ++ s) acc ≡ split_from s (acc ++ w)
unfolding split_from
split_from-word [] s acc h = rw (append-nil acc)
split_from-word (c ∷ w) s acc (hc, h) =
    rw (hc, split_from) (rw (split_from-word w s (acc ++ (c ∷ [])) h, append_assoc acc (c ∷ []) w))

pub word-IsWord : (w : Text) (ws : List Text) → is_empty w ≡ false → word w ws ≡ w ∷ ws
word-IsWord [] ws h = absurd (false≢true (sym h))
word-IsWord (c ∷ w) ws h = refl

split_from-spaced :
    (sep : ℕ) (ws : List Text) (acc : Text)
    → is_space sep ≡ true
    → All IsWord ws
    → split_from (spaced sep ws) acc ≡ word acc ws
unfolding split_from
split_from-spaced sep [] acc space h = refl
split_from-spaced sep (w ∷ ws) acc space ((full, clean), h) =
    rw (space, split_from)
      (rw (
        split_from-word w (spaced sep ws) [] clean,
        split_from-spaced sep ws w space h,
        word-IsWord w ws full,
      ))

-- Words with a separator between them are the words that `split` finds.
pub split-spaced :
    (sep : ℕ) (w : Text) (ws : List Text)
    → is_space sep ≡ true
    → All IsWord (w ∷ ws)
    → split (w ++ spaced sep ws) ≡ w ∷ ws
unfolding split
split-spaced sep w ws space ((full, clean), h) = rw (
  split_from-word w (spaced sep ws) [] clean,
  split_from-spaced sep ws w space h,
  word-IsWord w ws full,
)

spaced-Lacks : (ws : List Text) → All (Lacks 41) ws → Lacks 41 (spaced 32 ws)
spaced-Lacks [] h = tt
spaced-Lacks (w ∷ ws) (hw, h) =
    (omega arith, All-append (λ c. c ≢ 41) w (spaced 32 ws) hw (spaced-Lacks ws h))

-- A line as the kernel writes it: the PID, a space, the name in parentheses, and the other fields
-- with a space in front of each.
abbrev pub stat_line : Text → Text → List Text → Text
stat_line pid name others = (pid ++ 32 ∷ []) ++ 40 ∷ (name ++ 41 ∷ spaced 32 others)

-- For every name, also one with parentheses and spaces, the fields are read back as they were
-- written, if the PID and the other fields are words and hold no parenthesis.
pub parse_procfs_stat_fields-stat_line :
    (pid name : Text) (others : List Text)
    → IsWord pid
    → Lacks 40 pid
    → All IsWord others
    → All (Lacks 41) others
    → parse_procfs_stat_fields (stat_line pid name others) ≡ ok (pid ∷ name ∷ others)
unfolding split split_from
parse_procfs_stat_fields-stat_line pid name others (full, clean) h words g =
    let front : split (pid ++ 32 ∷ []) ≡ pid ∷ [] =
      rw (split_from-word pid (32 ∷ []) [] clean, word-IsWord pid [] full) in
    let rest : split (spaced 32 others) ≡ others = split_from-spaced 32 others [] refl words in
    parse_procfs_stat_fields-parts (pid ++ 32 ∷ []) name (spaced 32 others)
      (All-append (λ c. c ≢ 40) pid (32 ∷ []) h (omega arith, tt)) (spaced-Lacks others g)
    ∙ rw (front, rest)
