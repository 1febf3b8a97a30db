-- ===== src/ImapServer/StoreFlags.antt =====
-- `apply_store_flags` and `dedupe_flags` of crates/imap-server/src/imap.rs.
pub mod Laws
use imapped_lightmode.Base.{ℕ, Bool, not, List, [], ◌∷◌, ◌++◌, if◌then◌else◌, any, retain}
use imapped_lightmode.Text.{Text, lit}
use imapped_lightmode.Text.Case.{eq_ignore_ascii_case}
use imapped_lightmode.Protocol.{StoreMode, replace, add, remove}

-- Some flag of the list is `flag`, up to case.
unfoldable pub has_flag : List Text → Text → Bool
has_flag flags flag = any (λ existing. eq_ignore_ascii_case existing flag) flags

-- The loop that both functions run: append each flag that is not there yet.
unfoldable pub push_new : List Text → List Text → List Text
push_new out [] = out
push_new out (flag ∷ flags) = push_new (if has_flag out flag then out else out ++ flag ∷ []) flags

unfoldable pub dedupe_flags : List Text → List Text
dedupe_flags flags = push_new [] flags

unfoldable pub apply_store_flags : List Text → StoreMode → List Text → List Text
unfolding dedupe_flags
apply_store_flags current replace requested = dedupe_flags requested
apply_store_flags current add requested = push_new current requested
apply_store_flags current remove requested =
    retain (λ existing. not (any (λ flag. eq_ignore_ascii_case existing flag) requested)) current
