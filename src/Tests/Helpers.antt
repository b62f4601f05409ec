-- ===== src/Tests/Helpers.antt =====
-- The theorems on the helpers, at concrete inputs.
use pypsutil.Prelude.{◌+◌, ◌≡◌, ◌↔◌, refl, true, false, some, [], ◌∷◌, ◌++◌, arith, In, leb}
use pypsutil.Prelude.Text.{Text, codes, cut_at}
use pypsutil.Util.Bitmask.{expand_bitmask, bit}
use pypsutil.Util.Signals.{Signals, expand_sig_bitmask, is_kept, In-expand_sig_bitmask}
use pypsutil.Util.NullSplit.{iter_null_split_pre, terminated, iter_null_split_pre-terminated}

expand_0x4401 : expand_bitmask 0x4401 1 ≡ 1 ∷ 11 ∷ 15 ∷ []
unfolding expand_bitmask
expand_0x4401 = refl

-- Signals 1 to 31 have names, 34 to 64 are real-time.
abbrev linux_signals : Signals
linux_signals = record { is_signal = λ n. leb n 31; sigrtmin = some 34; sigrtmax = some 64 }

-- Signals 32 and 33 are internal.
expand_internal : expand_sig_bitmask linux_signals 0x380000001 false ≡ 1 ∷ 34 ∷ []
unfolding expand_sig_bitmask
expand_internal = refl

In-expand_sig_bitmask_example :
    In (1 + 33) (expand_sig_bitmask linux_signals 0x380000001 false)
    ↔ ((bit 0x380000001 33 ≡ 1) × (is_kept linux_signals false (1 + 33) ≡ true))
In-expand_sig_bitmask_example = In-expand_sig_bitmask linux_signals 0x380000001 false 33

abbrev cmdline : Text
cmdline = codes "ls" ++ 0 ∷ (codes "-l" ++ 0 ∷ codes "x")

split_cmdline : iter_null_split_pre cmdline ≡ codes "ls" ∷ codes "-l" ∷ []
unfolding iter_null_split_pre cut_at
split_cmdline = refl

iter_null_split_pre-terminated_example :
    iter_null_split_pre (terminated (codes "ls" ∷ [] ∷ []) ++ codes "x") ≡ codes "ls" ∷ [] ∷ []
iter_null_split_pre-terminated_example =
    iter_null_split_pre-terminated (codes "ls" ∷ [] ∷ []) (codes "x") (omega arith) (omega arith)
