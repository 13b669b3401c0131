-- ===== src/Drill/Patterns.antt =====
-- pkg/backup/drill/validate.go: the patterns of identifiers, names, digests and path tokens.
use cloud_ring.Prelude.{String, Bool, not, ◌&&◌, ◌||◌, [], ◌∷◌, leb, eqb}
use cloud_ring.Prelude.Lists.{contains}
use cloud_ring.Prelude.Text.{codes}
use cloud_ring.Prelude.Patterns.{
  is_lower_alnum, is_alpha, matches, hex_text, last_code, dot_dot, all_codes,
}

unfoldable pub valid_id : String → Bool
unfolding matches all_codes
valid_id s =
    matches is_lower_alnum
      (λ c. is_lower_alnum c || eqb c b'.' || eqb c b'_' || eqb c b':' || eqb c b'-') 127 (codes s)

unfoldable pub valid_name : String → Bool
unfolding matches all_codes
valid_name s =
    matches is_lower_alnum (λ c. is_lower_alnum c || eqb c b'.' || eqb c b'-') 62 (codes s)
    && is_lower_alnum (last_code (codes s))

unfoldable pub valid_kind : String → Bool
unfolding matches all_codes
valid_kind s =
    matches is_alpha (λ c. is_alpha c || (leb b'0' c && leb c b'9') || eqb c b'.') 63 (codes s)

unfoldable pub valid_sha : String → Bool
unfolding hex_text all_codes
valid_sha s = hex_text 64 s

unfoldable pub valid_git_sha : String → Bool
unfolding hex_text all_codes
valid_git_sha s = hex_text 40 s

unfoldable pub valid_path_token : String → Bool
unfolding matches all_codes dot_dot
valid_path_token s =
    matches is_lower_alnum
      (λ c. is_lower_alnum c || eqb c b'.' || eqb c b'_' || eqb c b'/' || eqb c b'-') 228 (codes s)
    && not (dot_dot (codes s))
    && not (
        eqb (last_code (codes s)) b'.'
        || eqb (last_code (codes s)) b'-'
        || eqb (last_code (codes s)) b'/')

unfoldable pub valid_evidence : String → String → Bool
unfolding valid_path_token valid_sha
valid_evidence ref sha = valid_path_token ref && valid_sha sha

unfoldable pub retained_kind : String → Bool
unfolding contains
retained_kind kind =
    contains ("Backup" ∷ "DataUpload" ∷ "ObjectStoreRecoveryPoint" ∷ "RestoreAuditCR" ∷ []) kind
