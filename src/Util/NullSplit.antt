-- ===== src/Util/NullSplit.antt =====
-- `_iter_null_split_pre`, `parse_cmdline_bytes` and `parse_environ_bytes` of pypsutil/_util.py.
-- Decoding from UTF-8 is a parameter.
use pypsutil.Prelude.{
  ℕ, zero, suc, ◌≤◌, length-append, ◌≡◌, refl, sym, ap, ◌∙◌, inl, inr, none, some, List, [], ◌∷◌,
  ◌++◌, arith, length, append_assoc, All,
}
use pypsutil.Prelude.Text.{
  Text, cut_at, text_keys, Lacks, cut_at-append, cut_at_absent, cut_at-cases,
}
use pypsutil.Prelude.Dict.{Dict, insert}
use pypsutil.Prelude.Exn.{Result, ok, ◌>>=◌}

-- The loop `while i < len(data)`, on what lies behind `i`: each round takes the bytes in front of the
-- next zero byte. What follows the last one is dropped. The fuel is the number of bytes.
null_loop : ℕ → Text → List Text
null_loop zero rest = []
null_loop (suc fuel) rest = elim (cut_at 0 rest) [
  | none ↦ []
  | some (piece, behind) ↦ piece ∷ null_loop fuel behind
]

unfoldable pub iter_null_split_pre : Text → List Text
unfolding null_loop
iter_null_split_pre bytes = null_loop (length bytes) bytes

module _ (decode : Text → Result Text) where
  decode_all : List Text → Result (List Text)
  decode_all [] = ok []
  decode_all (s ∷ pieces) = do t ← decode s; ts ← decode_all pieces; ok (t ∷ ts)

  unfoldable pub parse_cmdline_bytes : Text → Result (List Text)
  unfolding decode_all iter_null_split_pre
  parse_cmdline_bytes cmdline = decode_all (iter_null_split_pre cmdline)

  -- The loop over the chunks: one without an equals sign is passed over.
  environ_loop : List Text → Dict Text Text → Result (Dict Text Text)
  environ_loop [] res = ok res
  environ_loop (chunk ∷ chunks) res = elim (cut_at 61 chunk) [
    | none ↦ environ_loop chunks res
    | some (name, text) ↦ do
      key ← decode name
      value ← decode text
      environ_loop chunks (insert key value res)
  ]

  unfoldable pub parse_environ_bytes : Text → Result (Dict Text Text)
  unfolding environ_loop iter_null_split_pre
  parse_environ_bytes env = environ_loop (iter_null_split_pre env) []

-- How the kernel lays out arguments: each with a zero byte behind it.
abbrev pub terminated : List Text → Text
terminated [] = []
terminated (s ∷ pieces) = s ++ 0 ∷ terminated pieces

null_loop-terminated :
    (fuel : ℕ) (pieces : List Text) (tail : Text)
    → All (Lacks 0) pieces
    → Lacks 0 tail
    → length (terminated pieces ++ tail) ≤ fuel
    → null_loop fuel (terminated pieces ++ tail) ≡ pieces
unfolding null_loop
null_loop-terminated zero [] tail l lt h = refl
null_loop-terminated zero (s ∷ pieces) tail l lt h = absurd (
    omega (
      arith,
      h,
      length-append (s ++ 0 ∷ terminated pieces) tail,
      length-append s (0 ∷ terminated pieces),
    ))
null_loop-terminated (suc fuel) [] tail l lt h = rw (cut_at_absent 0 tail lt, null_loop)
null_loop-terminated (suc fuel) (s ∷ pieces) tail (ls, l) lt h =
    let whole : (s ++ 0 ∷ terminated pieces) ++ tail ≡ s ++ 0 ∷ (terminated pieces ++ tail) =
      append_assoc s (0 ∷ terminated pieces) tail in
    let shorter : length (terminated pieces ++ tail) ≤ fuel = omega (
      arith,
      h,
      ap (λ (t : Text). length t) whole,
      length-append s (0 ∷ (terminated pieces ++ tail)),
    ) in
    rw (whole, cut_at-append 0 s (terminated pieces ++ tail) ls, null_loop)
      (ap (λ (l : List Text). s ∷ l) (null_loop-terminated fuel pieces tail l lt shorter))

null_loop-splits :
    (fuel : ℕ) (rest : Text)
    → length rest ≤ fuel
    → (tail : Text) × (rest ≡ terminated (null_loop fuel rest) ++ tail)
      × Lacks 0 tail
      × All (Lacks 0) (null_loop fuel rest)
unfolding null_loop
null_loop-splits zero [] h = ([], refl, tt, tt)
null_loop-splits zero (c ∷ rest) h = absurd (omega arith)
null_loop-splits (suc fuel) rest h = elim (cut_at-cases 0 rest) [
  | inl (absent, l) ↦ (rest, rw (absent, null_loop), l, rw (absent, null_loop) tt)
  | inr (a, b, found, whole, l) ↦
      let shorter : length b ≤ fuel =
        omega (arith, h, ap (λ (t : Text). length t) whole, length-append a (0 ∷ b)) in
      let (tail, rebuilt, lt, ls) = null_loop-splits fuel b shorter in
      (
        tail,
        rw (found, null_loop)
            (whole
              ∙ ap (λ (t : Text). a ++ 0 ∷ t) rebuilt
              ∙ sym (append_assoc a (0 ∷ terminated (null_loop fuel b)) tail)),
        lt,
        rw (found, null_loop) (l, ls),
      )
]

-- Every zero byte ends a piece, and nothing is lost but what follows the last one: the bytes are the
-- pieces, each with a zero byte behind it, and then a rest without one. No piece holds a zero byte.
pub iter_null_split_pre-splits :
    (bytes : Text)
    → (tail : Text) × (bytes ≡ terminated (iter_null_split_pre bytes) ++ tail)
      × Lacks 0 tail
      × All (Lacks 0) (iter_null_split_pre bytes)
unfolding iter_null_split_pre
iter_null_split_pre-splits bytes = null_loop-splits (length bytes) bytes (omega arith)

-- Arguments laid out as the kernel does, each with a zero byte behind it, are read back; bytes that
-- follow the last zero byte are ignored.
pub iter_null_split_pre-terminated :
    (pieces : List Text) (tail : Text)
    → All (Lacks 0) pieces
    → Lacks 0 tail
    → iter_null_split_pre (terminated pieces ++ tail) ≡ pieces
unfolding iter_null_split_pre
iter_null_split_pre-terminated pieces tail l lt =
    null_loop-terminated (length (terminated pieces ++ tail)) pieces tail l lt (omega arith)
