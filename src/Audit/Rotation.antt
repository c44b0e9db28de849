-- ===== src/Audit/Rotation.antt =====
-- The file of the audit log (src/state.rs) stays small, as long as its calls succeed.
use mini_mask.Common.{ℕ, ◌<◌, ◌≡◌, List, [], ◌∷◌, some, Text, text, length}
use mini_mask.Disk.{Disk, content_or_empty}
use mini_mask.Disk.Paths.{with_extension}
use mini_mask.Audit.{AuditLog, AuditLogFile, LogJson, append}

abbrev pub backup_of : AuditLogFile → Text
backup_of file = with_extension file.path (text "log.1")

abbrev pub size_of : AuditLogFile → Disk → ℕ
size_of file d = length (content_or_empty d file.path)

-- No entry is as long as `limit` when it is written out.
abbrev pub IsShort : LogJson → ℕ → AuditLog → Type 0
IsShort json limit entry = (line : Text) → json.to_json entry ≡ some line → length line < limit

unfoldable pub append_all : LogJson → List AuditLog → AuditLogFile → Disk → Disk
append_all json [] file d = d
append_all json (e ∷ es) file d = append_all json es file (append json e file d).1
