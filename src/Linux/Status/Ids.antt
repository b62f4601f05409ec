-- ===== src/Linux/Status/Ids.antt =====
-- The four ids of a "Uid" or "Gid" line.
use pypsutil.Prelude.{ℕ, ◌≡◌, refl, some, List, [], ◌∷◌, ◌++◌, All}
use pypsutil.Prelude.Exn.{ok}
use pypsutil.Prelude.Text.{Text, parse_int, text_keys}
use pypsutil.Prelude.Dict.{lookup}
use pypsutil.Linux.Stat.RoundTrip.{IsWord, spaced, split-spaced}
use pypsutil.Linux.Status.{get_proc_status_entry, proc_ids, proc_fsid}
use pypsutil.Linux.Status.Entries.{IsPlain, status_text, get_proc_status_entry-lookup}

-- If the first line with the name holds four decimal numbers with tabs between them, the first three
-- are the real, effective and saved id, and the last is the one for the file system.
pub proc_ids-status_text :
    (name : Text) (es : List (Text × Text)) (w₁ w₂ w₃ w₄ : Text) {n₁ n₂ n₃ n₄ : ℕ}
    → All IsPlain es
    → lookup name es ≡ some (w₁ ++ spaced 9 (w₂ ∷ w₃ ∷ w₄ ∷ []))
    → All IsWord (w₁ ∷ w₂ ∷ w₃ ∷ w₄ ∷ [])
    → parse_int 10 w₁ ≡ some n₁
    → parse_int 10 w₂ ≡ some n₂
    → parse_int 10 w₃ ≡ some n₃
    → parse_int 10 w₄ ≡ some n₄
    → (proc_ids name (status_text es) ≡ ok (n₁, n₂, n₃)) × (proc_fsid name (status_text es) ≡ ok n₄)
unfolding proc_ids proc_fsid
proc_ids-status_text name es w₁ w₂ w₃ w₄ h found words e₁ e₂ e₃ e₄ =
    let cut = split-spaced 9 w₁ (w₂ ∷ w₃ ∷ w₄ ∷ []) refl words in
    let value : get_proc_status_entry name (status_text es)
        ≡ ok (w₁ ++ spaced 9 (w₂ ∷ w₃ ∷ w₄ ∷ [])) =
      rw found at (get_proc_status_entry-lookup name es h) in
    (rw (value, cut, e₁, e₂, e₃, e₄), rw (value, cut, e₄))
